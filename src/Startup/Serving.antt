-- ===== src/Startup/Serving.antt =====
-- The start of the server: `main` of local-storage/src/main.rs up to the listener, with
-- `StorageManager::new` of local-storage/src/storage.rs and `CacheManager::new` of
-- local-storage/src/cache.rs. The pool of database connections is lazy, so nothing here waits for the
-- database; the tasks that are spawned are those of Startup, Storage.Remove and Cache.Preload.
pub mod Laws
use rust_local_storage_cdn.Prelude.{
  ℕ, Text, Bytes, Bool, not, Option, none, some, Result, ok, err, if◌then◌else◌,
}
use rust_local_storage_cdn.Errors.{StorageError, StorageResult}
use rust_local_storage_cdn.Config.{Config, CacheBackendKind}
use rust_local_storage_cdn.Config.Load.{Vars, load, redis_url}
use rust_local_storage_cdn.Crypto.{new_crypto}
use rust_local_storage_cdn.World.{World, Env, Effect}
use rust_local_storage_cdn.World.Actions.{Action, io_call, lift, pure, ◌>>=◌, ◌>>◌}
use rust_local_storage_cdn.Storage.Encode.{StorageManager}
use rust_local_storage_cdn.Handlers.Download.{AppState}

-- The environment variables, and what is asked of the host and of other crates.
pub record Host : Type 0 where
  pub vars : Vars
  -- whether a text is a URL that the database driver, and the Redis client, accept
  pub is_database_url : Text → Bool
  pub is_redis_url : Text → Bool
  pub hex_decode : Text → Result Text Bytes
  pub random_key : Bytes
  -- whether the port can be listened on
  pub is_free : (port : ℕ) → Bool

pub data StartError : Type 0 where
  configuration : StartError
  database_address : StartError
  storage : StorageError → StartError
  listener : StartError

-- `CacheManager::new`: a Redis URL that is not one falls back to the cache in the process.
abbrev pub opened : (is_url : Bool) → CacheBackendKind → CacheBackendKind
opened is_url CacheBackendKind.memory = CacheBackendKind.memory
opened is_url CacheBackendKind.redis =
    if is_url then CacheBackendKind.redis else CacheBackendKind.memory

unfoldable pub new_cache : Host → Config → CacheBackendKind
new_cache host config = opened (host.is_redis_url (redis_url config)) config.cache.backend

-- `StorageManager::new`. The cache that was opened stands for the setting, which nothing reads later.
unfoldable pub new_manager : Env → Host → Config → Action StorageManager
new_manager env host config = do
  io_call env (Effect.create_dir config.storage.path)
  crypto ← lift (new_crypto host.hex_decode host.random_key config.crypto)
  pure (record {
    config = record config { cache = record config.cache { backend = new_cache host config } };
    crypto = crypto;
  })

-- The `AppState` of `main`.
unfoldable pub new_state : Config → StorageManager → AppState
new_state config manager = record {
  storage = manager;
  s3_config = config.s3;
  download_protection_token = config.download_protection_token;
  protected_read_buckets = config.protected_read_buckets;
}

module _ (env : Env) (host : Host) where
  abbrev pub listen : Config → StorageResult StorageManager → Result StartError AppState
  listen config (err e) = err (storage e)
  listen config (ok manager) =
      if host.is_free config.server.port then ok (new_state config manager) else err listener

  abbrev pub start : Option Config → World → Result StartError AppState × World
  start none w = (err configuration, w)
  start (some config) w =
      if not (host.is_database_url config.database.url)
      then (err database_address, w)
      else (let (manager, w') = new_manager env host config w in (listen config manager, w'))

  -- `main`, up to the server that answers.
  unfoldable pub main : World → Result StartError AppState × World
  main = start (load host.vars)
