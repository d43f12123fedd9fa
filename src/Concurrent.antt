-- ===== src/Concurrent.antt =====
-- Requests to the storage layer that run at once: every handler of local-storage/src/handlers and of
-- local-storage/src/s3, and the TTL sweep of local-storage/src/main.rs, use the storage manager through
-- a read lock, so the outside calls of one request come between those of another. The sweep is a
-- request to remove each key that it lists.
pub mod Processes
pub mod Steps
pub mod Alone
pub mod Follows
pub mod Removals
pub mod Stores
pub mod Reads
pub mod Linear
use rust_local_storage_cdn.Prelude.{
  ℕ, ◌+◌, Text, Bytes, Bool, true, false, ◌||◌, none, some, List, [], ◌∷◌, ◌==◌, if◌then◌else◌, ◌≡◌,
}
use rust_local_storage_cdn.Errors.{StorageResult}
use rust_local_storage_cdn.World.{World, Env}
use rust_local_storage_cdn.World.Actions.{put}
use rust_local_storage_cdn.Database.Laws.{IsUnique}
use rust_local_storage_cdn.Storage.Encode.{StorageManager}
use rust_local_storage_cdn.Machine.{Operation, Contents, contents, set, set_bucket}
use rust_local_storage_cdn.Concurrent.Processes.{Process, returns, atomic}
use rust_local_storage_cdn.Concurrent.Steps.{operation_steps}
use rust_local_storage_cdn.Concurrent.Follows.{Exact, Weak}

-- An operation, with which of its outside calls fail.
pub record Request : Type 0 where
  pub env : Env
  pub operation : Operation

-- What each request has still to do, and whether it has begun.
pub record System : Type 0 where
  pub world : World
  pub rest : ℕ → Process (Unit {0})
  pub began : ℕ → Bool

abbrev pub initial : StorageManager → (ℕ → Request) → World → System
initial m requests w = record {
  world = w;
  rest = λ i. operation_steps (requests i).env m (requests i).operation;
  began = λ i. false;
}

abbrev pub update : {A : Type 0} → (ℕ → A) → ℕ → A → ℕ → A
update f i v j = if i == j then v else f j

-- A request takes a step, time passes, or a cache entry is evicted.
pub data Step (s : System) : System → Type 0 where
  proceeds :
      (i : ℕ) (effect : World → World) (next : World → Process (Unit {0}))
      → s.rest i ≡ atomic effect next
      → Step s (record {
        world = effect s.world;
        rest = update s.rest i (next s.world);
        began = update s.began i true;
      })
  waits : (time : ℕ) → Step s (record s { world = record s.world { now = s.world.now + time } })
  evicts :
      (entry : Text)
      → Step s (record s { world = record s.world { cache = put entry none s.world.cache } })

pub data Reach (s : System) : System → Type 0 where
  here : Reach s s
  further : {t u : System} → Reach s t → Step t u → Reach s u

-- What an operation does to the abstract store.
abbrev pub change_of : (hash : Bytes → Text) → Operation → Contents → Contents
change_of hash (Operation.store bucket key content content_type opts) =
    set bucket key (some (hash content))
change_of hash (Operation.read bucket key) = set bucket key none
change_of hash (Operation.info bucket key) = set bucket key none
change_of hash (Operation.remove bucket key) = set bucket key none
change_of hash (Operation.create bucket) = λ c. c
change_of hash (Operation.drop bucket) = set_bucket bucket

-- Whether it may end so, when it made its change and when it did not: a store or a removal succeeds
-- exactly if it made it, and a read that succeeds did not make it.
abbrev pub Fits : Operation → Bool → StorageResult (Unit {0}) → Type 0
Fits (Operation.store bucket key content content_type opts) = Exact
Fits (Operation.read bucket key) = Weak
Fits (Operation.info bucket key) = Weak
Fits (Operation.remove bucket key) = Exact
Fits (Operation.create bucket) = Weak
Fits (Operation.drop bucket) = Exact

-- Requests, the last first.
abbrev pub taken : ℕ → List ℕ → Bool
taken i [] = false
taken i (j ∷ order) = j == i || taken i order

abbrev pub Once : List ℕ → Type 0
Once [] = Unit
Once (i ∷ order) = (taken i order ≡ false) × Once order

abbrev pub applied : (ℕ → Request) → List ℕ → Contents → Contents
applied requests [] c = c
applied requests (i ∷ order) c =
    change_of (requests i).env.blake3 (requests i).operation (applied requests order c)

-- An order of requests that explains a state: its rows are unique, no request stands in the order twice, all that do have begun, one
-- after another they make of the abstract store what is stored, and the outcome of each request that
-- has ended fits whether it stands in the order.
abbrev pub Explains : (ℕ → Request) → World → List ℕ → System → Type 0
Explains requests w order s =
    IsUnique s.world.files
    × Once order
    × ((i : ℕ) → taken i order ≡ true → s.began i ≡ true)
    × (contents s.world ≡ applied requests order (contents w))
    × ((i : ℕ) (r : StorageResult (Unit {0}))
        → s.rest i ≡ returns r
        → Fits (requests i).operation (taken i order) r)
