-- ===== src/Machine.antt =====
-- The storage layer of local-storage/src/storage.rs as one state machine: its operations in any order,
-- any of their outside calls failing, and what may happen between them. The abstract view of the store
-- is a map from a bucket and a key to the hash of the content.
pub mod Frames
pub mod Tables
pub mod Invariant
pub mod Refinement
use rust_local_storage_cdn.Prelude.{
  ℕ, ◌+◌, Text, Bytes, text_eq, Option, none, some, List, [], ◌∷◌, any, ◌&&◌, true, Result, ok, err,
  if◌then◌else◌, ◌≡◌, ◌⊎◌,
}
use rust_local_storage_cdn.Errors.{StorageResult}
use rust_local_storage_cdn.Models.{StoredFile}
use rust_local_storage_cdn.World.{World, Env, BucketRow}
use rust_local_storage_cdn.World.Actions.{Action, pure, ◌>>=◌, ◌>>◌, put}
use rust_local_storage_cdn.Database.{lookup}
use rust_local_storage_cdn.Database.Laws.{IsUnique}
use rust_local_storage_cdn.Storage.Encode.{StorageManager, StoreOptions}
use rust_local_storage_cdn.Storage.Store.{store_file}
use rust_local_storage_cdn.Storage.Fetch.{get_file, get_file_info}
use rust_local_storage_cdn.Storage.Remove.{delete_file, sweep_expired_files}
use rust_local_storage_cdn.Storage.Buckets.{create_bucket, delete_bucket, has_name}

pub data Operation : Type 0 where
  store : (bucket key : Text) → Bytes → Option Text → StoreOptions → Operation
  read info remove : (bucket key : Text) → Operation
  create drop : (bucket : Text) → Operation

abbrev pub done : {A : Type 0} → Action A → Action (Unit {0})
done m = m >>= λ a. pure tt

unfoldable pub perform : Env → StorageManager → Operation → Action (Unit {0})
perform env m (store bucket key content content_type opts) =
    done (store_file env m bucket key content content_type opts)
perform env m (read bucket key) = done (get_file env m bucket key)
perform env m (info bucket key) = done (get_file_info env m bucket key)
perform env m (remove bucket key) = delete_file env bucket key
perform env m (create bucket) = create_bucket env m.config.storage.path bucket
perform env m (drop bucket) = delete_bucket env m.config.storage.path bucket

-- One step: an operation or a TTL sweep with whatever calls fail in it, time that passes, or a cache entry that is
-- evicted.
pub data Step (m : StorageManager) : World → World → Type 0 where
  performs : (env : Env) (op : Operation) (w : World) → Step m w (perform env m op w).1
  sweeps : (env : Env) (w : World) → Step m w (sweep_expired_files env w).1
  waits : (time : ℕ) (w : World) → Step m w (record w { now = w.now + time })
  evicts : (entry : Text) (w : World) → Step m w (record w { cache = put entry none w.cache })

pub data Reach (m : StorageManager) : World → World → Type 0 where
  here : (w : World) → Reach m w w
  further : (w w1 w2 : World) → Reach m w w1 → Step m w1 w2 → Reach m w w2

-- Every row's bucket has a row of its own: the foreign key of the files table.
abbrev pub InBuckets : List StoredFile → List BucketRow → Type 0
InBuckets [] buckets = Unit
InBuckets (row ∷ rows) buckets = (any (has_name row.bucket) buckets ≡ true) × InBuckets rows buckets

abbrev pub IsConsistent : World → Type 0
IsConsistent w = IsUnique w.files × InBuckets w.files w.buckets

-- The abstract store.
abbrev pub Contents : Type 0
Contents = Text → Text → Option Text

abbrev pub hash_of : Option StoredFile → Option Text
hash_of none = none
hash_of (some row) = some row.hash_blake3

unfoldable pub contents : World → Contents
contents w bucket key = hash_of (lookup bucket key w.files)

abbrev pub set : Text → Text → Option Text → Contents → Contents
set bucket key value c b k = if text_eq bucket b && text_eq key k then value else c b k

abbrev pub set_bucket : Text → Contents → Contents
set_bucket bucket c b k = if text_eq bucket b then none else c b k

-- What an operation may do to the abstract store, by its outcome: a store sets its key to the hash, a
-- removal removes it, a failure changes nothing; a read that succeeds changes nothing, and one that
-- fails may have found the file expired or lost and removed it.
abbrev pub Allowed :
    (hash : Bytes → Text) → Operation → StorageResult (Unit {0}) → Contents → Contents → Type 0
Allowed hash (store bucket key content content_type opts) (ok _) c c' =
    c' ≡ set bucket key (some (hash content)) c
Allowed hash (remove bucket key) (ok _) c c' = c' ≡ set bucket key none c
Allowed hash (drop bucket) (ok _) c c' = c' ≡ set_bucket bucket c
Allowed hash (read bucket key) (err e) c c' = (c' ≡ c) ⊎ (c' ≡ set bucket key none c)
Allowed hash (info bucket key) (err e) c c' = (c' ≡ c) ⊎ (c' ≡ set bucket key none c)
Allowed hash op outcome c c' = c' ≡ c
