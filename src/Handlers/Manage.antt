-- ===== src/Handlers/Manage.antt =====
-- local-storage/src/handlers/bucket_handlers.rs, key_handlers.rs and health_handler.rs, and the two
-- listings of file_handlers.rs. A status without a body is the number; a JSON body is its value.
pub mod Laws
use rust_local_storage_cdn.Prelude.{
  ℕ, Text, Bool, ◌&&◌, Option, none, some, List, map, if◌then◌else◌, ℤ,
}
use rust_local_storage_cdn.Models.{EncryptionKey, FileInfo}
use rust_local_storage_cdn.World.{Env}
use rust_local_storage_cdn.World.Actions.{Action, pure, lift, ◌>>=◌, ◌>>◌}
use rust_local_storage_cdn.Database
use rust_local_storage_cdn.Database.Search.{Folding}
use rust_local_storage_cdn.Storage.Buckets
use rust_local_storage_cdn.Storage.Buckets.{list_file_infos, bucket_counts}
use rust_local_storage_cdn.Storage.Manage.{
  health_check, search_file_infos, get_storage_counts, create_encryption_key, list_encryption_keys,
  deactivate_encryption_key,
}
use rust_local_storage_cdn.Handlers.Download.{AppState, require_download_token}

-- What the API shows of a key: all but its bytes.
pub record EncryptionKeyInfo : Type 0 where
  pub key_id : Text
  pub algorithm : Text
  pub description : Option Text
  pub is_active : Option Bool
  pub created_at : Option ℕ

unfoldable pub key_info : EncryptionKey → EncryptionKeyInfo
key_info k = record {
  key_id = k.key_id;
  algorithm = k.algorithm;
  description = k.description;
  is_active = k.is_active;
  created_at = k.created_at;
}

pub record CreateKeyRequest : Type 0 where
  pub algorithm : Text
  pub description : Option Text

pub record ListFilesQuery : Type 0 where
  pub prefix : Option Text
  pub limit : Option ℤ
  pub offset : Option ℤ

pub record SearchQuery : Type 0 where
  pub bucket : Option Text
  pub query : Text
  pub limit : Option ℤ

module _ (env : Env) (state : AppState) where
  unfoldable pub create_bucket : Text → Action ℕ
  create_bucket bucket = do
    Buckets.create_bucket env state.storage.config.storage.path bucket
    pure 201

  unfoldable pub delete_bucket : Text → Action ℕ
  delete_bucket bucket = do
    Buckets.delete_bucket env state.storage.config.storage.path bucket
    pure 204

  unfoldable pub list_buckets : (List Text → List Text) → Action (List Text)
  list_buckets order_by_name = Database.list_buckets env order_by_name

  unfoldable pub get_bucket_stats : Text → Action (ℕ × ℕ × ℕ × ℕ)
  get_bucket_stats bucket = bucket_counts env bucket

  unfoldable pub get_storage_stats : Action (ℕ × ℕ × ℕ × ℕ)
  get_storage_stats = get_storage_counts env

  unfoldable pub create_key : CreateKeyRequest → Action (ℕ × EncryptionKeyInfo)
  create_key req = do
    key ← create_encryption_key env req.algorithm req.description
    pure (201, key_info key)

  unfoldable pub list_keys : Action (List EncryptionKeyInfo)
  list_keys = do keys ← list_encryption_keys env; pure (map key_info keys)

  unfoldable pub deactivate_key : Text → Action ℕ
  deactivate_key key_id = do deactivate_encryption_key env key_id; pure 204

  -- `health_check_deep`
  unfoldable pub health_check_deep : Action ℕ
  health_check_deep = do
    (db_ok, redis_ok) ← health_check env state.storage
    pure (if db_ok && redis_ok then 200 else 503)

  unfoldable pub list_files :
      (bucket : Text) → ListFilesQuery → (token : Option Text) → Action (List FileInfo)
  list_files bucket query token = do
    lift (require_download_token state (some bucket) token)
    list_file_infos env bucket query.prefix query.limit query.offset

  unfoldable pub search_files :
      Folding → SearchQuery → (token : Option Text) → Action (List FileInfo)
  search_files f query token = do
    lift (require_download_token state query.bucket token)
    search_file_infos env f query.bucket query.query query.limit
