-- ===== src/Cache.antt =====
-- local-storage/src/cache.rs: `CacheManager`, the read-through cache in front of the storage layer.
-- Both backends keep bytes under a text; a backend call that fails is the environment's choice, and
-- an entry that has been evicted or has timed out is one that is not there.
pub mod Laws
pub mod Preload
pub mod Stats
use rust_local_storage_cdn.Prelude.{
  ℕ, Text, Bytes, str, Option, none, some, ◌++◌, length, ltb, if◌then◌else◌, Result, ok, err,
  map_err,
}
use rust_local_storage_cdn.Errors.{StorageError}
use rust_local_storage_cdn.Models.{StoredFile}
use rust_local_storage_cdn.World.{World, Env, cache_get, cache_set, cache_del}
use rust_local_storage_cdn.World.Actions.{
  Action, pure, raise, lift, ◌>>=◌, ◌>>◌, gets, modify, ignore, redis_call, put,
}

-- format!("file:{}:{}", bucket, key)
unfoldable pub metadata_key : Text → Text → Text
metadata_key bucket key = str "file:" ++ (bucket ++ (str ":" ++ key))

-- format!("content:{}:{}", bucket, key)
unfoldable pub content_key : Text → Text → Text
content_key bucket key = str "content:" ++ (bucket ++ (str ":" ++ key))

abbrev pub max_cache_size : ℕ
max_cache_size = 1048576

abbrev json_error : Text → StorageError
json_error = StorageError.json

module _ (env : Env) where
  unfoldable pub backend_get : Text → Action (Option Bytes)
  backend_get key = do redis_call env (cache_get key); gets (λ w. w.cache key)

  unfoldable pub backend_set : Text → Bytes → Action (Unit {0})
  backend_set key value = do
    redis_call env (cache_set key)
    modify (λ w. record w { cache = put key (some value) w.cache })

  unfoldable pub backend_del : Text → Action (Unit {0})
  backend_del key = do
    redis_call env (cache_del key)
    modify (λ w. record w { cache = put key none w.cache })

  -- An entry that does not parse is dropped and counts as a miss.
  unfoldable pub parsed_or_miss : Text → Result Text StoredFile → Action (Option StoredFile)
  parsed_or_miss cache_key (ok file) = pure (some file)
  parsed_or_miss cache_key (err e) = do ignore (backend_del cache_key); pure none

  unfoldable pub parse_entry : Text → Option Bytes → Action (Option StoredFile)
  parse_entry cache_key none = pure none
  parse_entry cache_key (some bytes) = parsed_or_miss cache_key (env.from_slice bytes)

  unfoldable pub get_file_metadata : Text → Text → Action (Option StoredFile)
  get_file_metadata bucket key = do
    entry ← backend_get (metadata_key bucket key)
    parse_entry (metadata_key bucket key) entry

  unfoldable pub set_file_metadata : Text → Text → StoredFile → Action (Unit {0})
  set_file_metadata bucket key file = do
    serialized ← lift (map_err json_error (env.to_vec file))
    backend_set (metadata_key bucket key) serialized

  unfoldable pub get_file_content : Text → Text → Action (Option Bytes)
  get_file_content bucket key = backend_get (content_key bucket key)

  -- Content above 1 MB is not cached.
  unfoldable pub set_file_content : Text → Text → Bytes → Action (Unit {0})
  set_file_content bucket key content =
      if ltb max_cache_size (length content)
      then pure tt
      else backend_set (content_key bucket key) content

  -- One call deletes both entries.
  unfoldable pub invalidate_file : Text → Text → Action (Unit {0})
  invalidate_file bucket key = do
    redis_call env (cache_del (metadata_key bucket key))
    modify (λ w. record w {
      cache = put (content_key bucket key) none (put (metadata_key bucket key) none w.cache);
    })
