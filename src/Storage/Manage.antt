-- ===== src/Storage/Manage.antt =====
-- The remaining operations of local-storage/src/storage.rs: search, totals, the health check and the
-- encryption keys.
use rust_local_storage_cdn.Prelude.{
  ℕ, Text, Bool, true, Option, none, some, List, [], map, ℤ, pos, unwrap_or,
}
use rust_local_storage_cdn.Config.{CacheBackendKind}
use rust_local_storage_cdn.Crypto.{from_str, as_str}
use rust_local_storage_cdn.Models.{EncryptionKey, FileInfo, file_info}
use rust_local_storage_cdn.World.{Env, Fault, ping_database, cache_ping}
use rust_local_storage_cdn.World.Actions.{Action, pure, lift, ◌>>=◌, draw}
use rust_local_storage_cdn.Database.Search.{Folding, search_files, get_total_counts}
use rust_local_storage_cdn.Keys.{create_key, list_keys, deactivate_key, generate_key_id}
use rust_local_storage_cdn.Storage.Encode.{StorageManager}

abbrev is_fine : Option Fault → Bool
is_fine none = true
is_fine (some f) = Bool.false

-- The in-process cache is always there; Redis is asked.
abbrev pub cache_health : Env → CacheBackendKind → Bool
cache_health env CacheBackendKind.memory = true
cache_health env CacheBackendKind.redis = is_fine (env.fails cache_ping)

-- The database and the cache; both backends count as enabled.
unfoldable pub health_check : Env → StorageManager → Action (Bool × Bool)
health_check env m =
    pure (is_fine (env.fails ping_database), cache_health env m.config.cache.backend)

unfoldable pub max_file_size : StorageManager → ℕ
max_file_size m = m.config.storage.max_file_size

module _ (env : Env) where
  -- `StorageManager::search_files`
  unfoldable pub search_file_infos :
      Folding → (bucket : Option Text) (query : Text) (limit : Option ℤ) → Action (List FileInfo)
  search_file_infos f bucket query limit = do
    files ← search_files env f (unwrap_or bucket []) query (unwrap_or limit (pos 100))
    pure (map file_info files)

  unfoldable pub get_storage_counts : Action (ℕ × ℕ × ℕ × ℕ)
  get_storage_counts = get_total_counts env

  -- The algorithm is checked first; then the id and the key are drawn.
  unfoldable pub create_encryption_key :
      (algorithm : Text) (description : Option Text) → Action EncryptionKey
  create_encryption_key algorithm description = do
    parsed ← lift (from_str algorithm)
    key_id ← generate_key_id env
    key_data ← draw env.random_key
    create_key env key_id key_data (as_str parsed) description

  unfoldable pub list_encryption_keys : Action (List EncryptionKey)
  list_encryption_keys = list_keys env

  unfoldable pub deactivate_encryption_key : Text → Action (Unit {0})
  deactivate_encryption_key key_id = deactivate_key env key_id
