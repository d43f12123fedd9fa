-- ===== src/Storage/Store.antt =====
-- `store_file` of local-storage/src/storage.rs: deduplication, then the stages, the atomic write, the
-- row and the cache.
pub mod Laws
pub mod Faults
pub mod New
use rust_local_storage_cdn.Prelude.{
  ℕ, Text, Bytes, str, Bool, true, false, Option, none, some, length, if◌then◌else◌, ok, err,
  unwrap_or, pos,
}
use rust_local_storage_cdn.Errors.{StorageResult}
use rust_local_storage_cdn.Models.{StoredFile, Ratio}
use rust_local_storage_cdn.World.{Env, create_dir}
use rust_local_storage_cdn.World.Actions.{
  Action, pure, raise, ◌>>=◌, ◌>>◌, gets, ignore, attempt, io_call, draw,
}
use Prim.Native.Nat.{max}
use rust_local_storage_cdn.Database.{is_at, get_file_by_hash, save_file}
use rust_local_storage_cdn.Cache.{set_file_metadata, set_file_content}
use rust_local_storage_cdn.Storage.Paths.{get_file_path, filename_of, split_dir}
use rust_local_storage_cdn.Storage.Disk.{write_file_atomic, unlink}
use rust_local_storage_cdn.Storage.Encode.{
  StoreOptions, StorageManager, should_compress, should_encrypt, upload_compression, compress_stage,
  encrypt_stage,
}
use rust_local_storage_cdn.Storage.Buckets.{ensure_bucket_exists}

-- A new row over the bytes of an existing one.
unfoldable pub aliased_row :
    (id now : ℕ) (bucket key : Text) (hash md5 : Text)
    → Option Text
    → StoreOptions
    → StoredFile
    → StoredFile
aliased_row id now bucket key hash md5 content_type opts existing = record {
  id = id;
  bucket = bucket;
  key = key;
  filename = filename_of key;
  file_path = existing.file_path;
  file_size = existing.file_size;
  original_size = existing.original_size;
  content_type = unwrap_or content_type existing.content_type;
  hash_blake3 = hash;
  hash_md5 = md5;
  metadata = opts.metadata;
  is_compressed = existing.is_compressed;
  is_encrypted = existing.is_encrypted;
  compression_algorithm = existing.compression_algorithm;
  encryption_algorithm = existing.encryption_algorithm;
  compression_ratio = existing.compression_ratio;
  upload_time = some now;
  last_accessed = none;
  access_count = 0;
  encryption_key_id = existing.encryption_key_id;
  compression_enabled = existing.compression_enabled;
  encryption_enabled = existing.encryption_enabled;
  compression_level = existing.compression_level;
  cache_status = some (str "not_cached");
  last_cache_update = none;
  cache_hits = some 0;
  cache_priority = some (pos 0);
  expires_at = opts.expires_at;
}

abbrev ratio_if : Bool → ℕ → ℕ → Option Ratio
ratio_if true stored original = some (record { stored = stored; original = max original 1 })
ratio_if false stored original = none

abbrev text_if : Bool → Text → Option Text
text_if true s = some s
text_if false s = none

-- The row of freshly stored content. `plain` is the uploaded content, `squeezed` what the
-- compression stage left, `stored` what is on disk.
unfoldable pub stored_row :
    (m : StorageManager) (id now : ℕ) (bucket key path : Text) (hash md5 : Text)
    → Option Text
    → StoreOptions
    → (plain squeezed stored : Bytes) (is_compressed is_encrypted : Bool) → StoredFile
stored_row m id now bucket key path hash md5 content_type opts plain squeezed stored compressed
      encrypted =
    record {
      id = id;
      bucket = bucket;
      key = key;
      filename = filename_of key;
      file_path = path;
      file_size = length stored;
      original_size = length plain;
      content_type = unwrap_or content_type (str "application/octet-stream");
      hash_blake3 = hash;
      hash_md5 = md5;
      metadata = opts.metadata;
      is_compressed = some compressed;
      is_encrypted = some encrypted;
      compression_algorithm = text_if compressed (upload_compression m opts).algorithm;
      encryption_algorithm = text_if encrypted m.config.crypto.algorithm;
      compression_ratio = ratio_if compressed (length squeezed) (length plain);
      upload_time = some now;
      last_accessed = none;
      access_count = 0;
      encryption_key_id = opts.encryption_key_id;
      compression_enabled = some (should_compress m opts);
      encryption_enabled = some (should_encrypt m opts);
      compression_level = some (upload_compression m opts).level;
      cache_status = some (str "not_cached");
      last_cache_update = none;
      cache_hits = some 0;
      cache_priority = some (pos 0);
      expires_at = opts.expires_at;
    }

module _ (env : Env) (m : StorageManager) (bucket key : Text) where
  -- Deduplication found this row: a re-upload of the same key is its row, another key gets a row of
  -- its own over the same bytes.
  unfoldable pub reuse :
      (content : Bytes) → Option Text → StoreOptions → StoredFile → Action StoredFile
  reuse content content_type opts existing =
      if is_at bucket key existing then pure existing else (do
        id ← draw env.uuid
        now ← gets (λ w. w.now)
        let file =
            aliased_row id now bucket key (env.blake3 content) (env.md5 content) content_type opts
              existing
        save_file env file
        pure file)

  -- A failed insert removes the file that was just written, and the error goes on.
  unfoldable pub cleanup : Text → StorageResult (Unit {0}) → Action (Unit {0})
  cleanup path (ok _) = pure tt
  cleanup path (err e) = do ignore (unlink env path); raise e

  unfoldable pub save_or_cleanup : Text → StoredFile → Action (Unit {0})
  save_or_cleanup path file = do outcome ← attempt (save_file env file); cleanup path outcome

  unfoldable pub warm_cache : StoredFile → Bytes → Action (Unit {0})
  warm_cache file stored = do
    ignore (set_file_metadata env bucket key file)
    ignore (set_file_content env bucket key stored)

  unfoldable pub write_bytes : Text → Bytes → Action (Unit {0})
  write_bytes path stored = do
    io_call env (create_dir (split_dir path).0)
    write_file_atomic env path stored

  unfoldable pub store_new : (content : Bytes) → Option Text → StoreOptions → Action StoredFile
  store_new content content_type opts = do
    let squeezed = compress_stage env m opts content
    (stored, encrypted) ← encrypt_stage env m opts squeezed.0
    let path = get_file_path m.config.storage.path bucket key
    write_bytes path stored
    id ← draw env.uuid
    now ← gets (λ w. w.now)
    let file =
        stored_row m id now bucket key path (env.blake3 content) (env.md5 content) content_type opts
          content squeezed.0 stored squeezed.1 encrypted
    save_or_cleanup path file
    warm_cache file stored
    pure file

  unfoldable pub store_or_reuse :
      (content : Bytes) → Option Text → StoreOptions → Option StoredFile → Action StoredFile
  store_or_reuse content content_type opts none = store_new content content_type opts
  store_or_reuse content content_type opts (some existing) =
      reuse content content_type opts existing

  unfoldable pub find_duplicate : Text → Action (Option StoredFile)
  find_duplicate hash =
      if m.config.storage.enable_deduplication then get_file_by_hash env hash else pure none

  unfoldable pub store_file : (content : Bytes) → Option Text → StoreOptions → Action StoredFile
  store_file content content_type opts = do
    ensure_bucket_exists env m.config.storage.path bucket
    existing ← find_duplicate (env.blake3 content)
    store_or_reuse content content_type opts existing
