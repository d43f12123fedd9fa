-- ===== src/Cache/Stats.antt =====
-- `get`, `set` and `get_cache_stats` of local-storage/src/cache.rs. How many entries the cache in the
-- process has, and what DBSIZE answers, are arguments: the cache is a function here.
use rust_local_storage_cdn.Prelude.{
  ℤ, pos, negsuc, ◌-◌, ◌^◌, ℕ, Text, Bytes, str, Bool, false, Option, none, some, Result, ok,
  unwrap_or, map_err, and_then,
}
use rust_local_storage_cdn.Errors.{StorageError, StorageResult}
use rust_local_storage_cdn.Config.{CacheBackendKind}
use rust_local_storage_cdn.World.{Env, Fault, cache_connect}
use rust_local_storage_cdn.World.Actions.{Action, pure, lift, ◌>>=◌}
use rust_local_storage_cdn.Cache.{backend_get, backend_set}
use rust_local_storage_cdn.Cache.Preload.{CacheConfig, gigabyte, get_cache_config}

-- `as u64`: a negative number wraps.
abbrev as_u64 : ℤ → ℕ
as_u64 (pos n) = n
as_u64 (negsuc n) = 2 ^ 64 - 1 - n

abbrev json_error : Text → StorageError
json_error e = StorageError.json e

pub record CacheStats : Type 0 where
  pub total_keys : ℕ
  pub max_size_gb : ℕ
  pub ttl_seconds : ℕ
  pub preload_enabled : Bool
  pub backend : Text

module _ (env : Env) where
  abbrev parsed : {A : Type 0} → (Bytes → Result Text A) → Option Bytes → StorageResult (Option A)
  parsed from_slice none = ok none
  parsed from_slice (some bytes) =
      and_then (map_err json_error (from_slice bytes)) (λ a. ok (some a))

  unfoldable pub get :
      {A : Type 0} → (from_slice : Bytes → Result Text A) → Text → Action (Option A)
  get from_slice key = do found ← backend_get env key; lift (parsed from_slice found)

  unfoldable pub set :
      {A : Type 0} → (to_vec : A → Result Text Bytes) → Text → A → Action (Unit {0})
  set to_vec key value = do
    bytes ← lift (map_err json_error (to_vec value))
    backend_set env key bytes

  -- A connection that fails counts as no entry, and so does an answer that is not there.
  abbrev redis_count : Option Fault → Option ℕ → ℕ
  redis_count none answer = unwrap_or answer 0
  redis_count (some f) answer = 0

  abbrev counted : (entry_count : ℕ) (dbsize : Option ℕ) → CacheBackendKind → ℕ × Text
  counted entry_count dbsize CacheBackendKind.memory = (entry_count, str "memory")
  counted entry_count dbsize CacheBackendKind.redis =
      (redis_count (env.fails cache_connect) dbsize, str "redis")

  unfoldable pub get_cache_stats :
      (entry_count : ℕ) (dbsize : Option ℕ)
      → CacheBackendKind
      → Option CacheConfig
      → Action CacheStats
  get_cache_stats entry_count dbsize backend row = do
    config ← get_cache_config env row
    let total = counted entry_count dbsize backend
    pure (record {
      total_keys = total.0;
      max_size_gb = unwrap_or config.max_cache_size_gb gigabyte;
      ttl_seconds = as_u64 (unwrap_or config.cache_ttl_seconds (pos 3600));
      preload_enabled = unwrap_or config.preload_enabled false;
      backend = total.1;
    })
