-- ===== src/Startup.antt =====
-- local-storage/src/main.rs: the retries of `run_background_db_init`, its check for orphaned files and
-- the ticks of `run_ttl_sweep`. What the n-th run of the migrator says is an argument.
pub mod Laws
pub mod Serving
use rust_local_storage_cdn.Prelude.{
  ℕ, zero, suc, ◌+◌, Text, Bool, true, false, ◌&&◌, Option, none, some, ltb, ◌==◌, if◌then◌else◌,
}
use rust_local_storage_cdn.World.{World, Env}
use rust_local_storage_cdn.Storage.Remove.{sweep_expired_files}

-- MAX_ATTEMPTS
abbrev pub max_attempts : ℕ
max_attempts = 30

-- How the retries end, with the attempts counted until then.
pub data Migration : Type 0 where
  applied : (attempts : ℕ) → Migration
  failed : (attempts : ℕ) → Text → Migration

-- The loop, on fuel; none is out of fuel.
unfoldable pub migrate : (run : ℕ → Option Text) (fuel attempts : ℕ) → Option Migration
migrate run zero attempts = none
migrate run (suc fuel) attempts = elim (run attempts) [
  | none ↦ some (applied attempts)
  | some e ↦
      let again = migrate run fuel (suc attempts) in
      if ltb attempts max_attempts then again else some (failed attempts e)
]

-- Whether the warning about orphaned files is given: the count, where the query succeeds, is zero, and
-- the directory, where it can be read, has an entry.
unfoldable pub warns_of_orphans : (count : Option ℕ) (has_entry : Option Bool) → Bool
warns_of_orphans (some zero) (some entry) = entry
warns_of_orphans count has_entry = false

-- What the checks that follow the migrations report, if the migrations were applied.
unfoldable pub background_init :
    (run : ℕ → Option Text) (count : Option ℕ) (has_entry : Option Bool) (fuel : ℕ)
    → Option (Migration × Bool)
background_init run count has_entry fuel = elim (migrate run fuel 0) [
  | none ↦ none
  | some (applied n) ↦ some (applied n, warns_of_orphans count has_entry)
  | some (failed n e) ↦ some (failed n e, false)
]

-- The first ticks of the sweep, each with its own failing calls; a failed sweep is logged.
unfoldable pub ticks : (env : ℕ → Env) (count : ℕ) → World → World
ticks env zero w = w
ticks env (suc n) w = (sweep_expired_files (env n) (ticks env n w)).1
