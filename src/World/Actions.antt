-- ===== src/World/Actions.antt =====
-- The monad of the storage layer: a step reads and changes the world and returns a result. What was
-- changed before an error stays changed.
use rust_local_storage_cdn.Prelude.{
  ℕ, suc, Text, text_eq, Option, none, some, if◌then◌else◌, ok, err, ◌≡◌, refl,
}
use rust_local_storage_cdn.Errors.{StorageError, StorageResult}
use rust_local_storage_cdn.World.{World, Effect, Fault, Env}

abbrev pub Action : Type 0 → Type 0
Action A = World → StorageResult A × World

abbrev pub pure : {A : Type 0} → A → Action A
pure a w = (ok a, w)

abbrev pub raise : {A : Type 0} → StorageError → Action A
raise e w = (err e, w)

abbrev pub lift : {A : Type 0} → StorageResult A → Action A
lift r w = (r, w)

abbrev pub continue : {A B : Type 0} → StorageResult A → (A → Action B) → Action B
continue (ok a) f w = f a w
continue (err e) f w = (err e, w)

infixl 10 ◌>>=◌ ◌>>◌
abbrev pub ◌>>=◌ : {A B : Type 0} → Action A → (A → Action B) → Action B
◌>>=◌ m f w = let (r, w') = m w in continue r f w'

abbrev pub ◌>>◌ : {B : Type 0} → Action (Unit {0}) → Action B → Action B
m >> k = m >>= λ _. k

abbrev pub gets : {A : Type 0} → (World → A) → Action A
gets f w = (ok (f w), w)

abbrev pub modify : (World → World) → Action (Unit {0})
modify f w = (ok tt, f w)

-- `if let Err(e) = ... { warn!(...) }` and `let _ = ...`: the outcome is dropped, the changes stay.
abbrev pub ignore : {A : Type 0} → Action A → Action (Unit {0})
ignore m w = (ok tt, (m w).1)

-- The outcome as a value, for `match`.
abbrev pub attempt : {A : Type 0} → Action A → Action (StorageResult A)
attempt m w = (ok (m w).0, (m w).1)

-- `impl From<sqlx::Error>`, `impl From<std::io::Error>` and `impl From<redis::RedisError>`
abbrev pub database_error : Fault → StorageError
database_error f = StorageError.database f.message

abbrev pub io_error : Fault → StorageError
io_error f = StorageError.io f.message

abbrev pub redis_error : Fault → StorageError
redis_error f = StorageError.redis f.message

-- A call that changes nothing by itself: it fails, or the rest goes on.
abbrev pub check : (Fault → StorageError) → Option Fault → Action (Unit {0})
check convert none w = (ok tt, w)
check convert (some f) w = (err (convert f), w)

module _ (env : Env) where
  abbrev pub database_call : Effect → Action (Unit {0})
  database_call e = check database_error (env.fails e)

  abbrev pub io_call : Effect → Action (Unit {0})
  io_call e = check io_error (env.fails e)

  abbrev pub redis_call : Effect → Action (Unit {0})
  redis_call e = check redis_error (env.fails e)

-- One random draw.
abbrev pub draw : {A : Type 0} → (ℕ → A) → Action A
draw f w = (ok (f w.drawn), record w { drawn = suc w.drawn })

-- A finite map with one entry changed.
abbrev pub put : {A : Type 0} → Text → Option A → (Text → Option A) → Text → Option A
put k v m j = if text_eq k j then v else m j

-- A chain that succeeds has a first step that succeeded.
pub continue-eq-ok :
    {A B : Type 0} (r : StorageResult A) (f : A → Action B) (w w1 : World) (b : B)
    → continue r f w ≡ (ok b, w1)
    → (a : A) × (r ≡ ok a) × (f a w ≡ (ok b, w1))
continue-eq-ok (ok a) f w w1 b h = (a, refl, h)
continue-eq-ok (err e) f w w1 b h = cc
