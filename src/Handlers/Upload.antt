-- ===== src/Handlers/Upload.antt =====
-- `upload_file` and `handle_file_delete` of local-storage/src/handlers/file_handlers.rs. What
-- `extract_filename_from_content_disposition` finds and how reading the body ends are arguments; a TTL
-- that chrono cannot add to the clock, where the source panics, is not followed.
pub mod Laws
use rust_local_storage_cdn.Prelude.{
  ℕ, zero, suc, and_then, ◌+◌, ◌*◌, ◌/◌, Text, Bytes, str, Bool, true, false, Option, none, some,
  [], ◌∷◌, ◌++◌, length, ltb, ◌==◌, decimal, parse_u64, trim_end_matches, if◌then◌else◌, ℤ, pos,
  negsuc, Result, ok, err, unwrap_or,
}
use rust_local_storage_cdn.Errors.{StorageError, StorageResult}
use rust_local_storage_cdn.Models.{FileInfo, file_info}
use rust_local_storage_cdn.World.{Env}
use rust_local_storage_cdn.World.Actions.{Action, pure, raise, lift, ◌>>=◌, ◌>>◌, gets}
use rust_local_storage_cdn.Storage.Encode.{StorageManager, StoreOptions}
use rust_local_storage_cdn.Storage.Store.{store_file}
use rust_local_storage_cdn.Storage.Remove.{delete_file}

pub record UploadQuery : Type 0 where
  pub compress : Option Bool
  pub encrypt : Option Bool
  pub compression_algorithm : Option Text
  pub compression_level : Option ℤ
  pub encryption_key_id : Option Text
  pub ttl_seconds : Option ℤ

abbrev int_text : ℤ → Text
int_text (pos n) = decimal n
int_text (negsuc n) = str "-" ++ decimal (suc n)

-- A declared length that parses and is too large.
abbrev too_long : ℕ → Option ℕ → StorageResult (Unit {0})
too_long max_size none = ok tt
too_long max_size (some len) =
    if ltb max_size len
    then err (
        StorageError.payload_too_large (
          str "Content-Length "
          ++ (decimal len
              ++ (str " exceeds max file size " ++ (decimal max_size ++ str " bytes")))))
    else ok tt

abbrev parsed_length : Option Text → Option ℕ
parsed_length none = none
parsed_length (some s) = parse_u64 s

unfoldable pub check_length : ℕ → Option Text → StorageResult (Unit {0})
check_length max_size content_length = too_long max_size (parsed_length content_length)

-- `to_bytes` stops above the limit; an empty body is refused.
unfoldable pub read_body : ℕ → Result Text Bytes → StorageResult Bytes
read_body max_size (err e) = err (StorageError.bad_request (str "Failed to read body: " ++ e))
read_body max_size (ok bytes) =
    if ltb max_size (length bytes)
    then err (
        StorageError.payload_too_large
          (str "Body exceeds max file size " ++ (decimal max_size ++ str " bytes")))
    else if length bytes == 0
    then err (StorageError.bad_request (str "No file content provided"))
    else ok bytes

abbrev bad_ttl : ℤ → StorageError
bad_ttl ttl =
    StorageError.bad_request (str "ttl_seconds must be a positive number, got " ++ int_text ttl)

-- The expiry in microseconds.
unfoldable pub expiry : (now : ℕ) → Option ℤ → StorageResult (Option ℕ)
expiry now none = ok none
expiry now (some (pos zero)) = err (bad_ttl (pos 0))
expiry now (some (pos (suc n))) = ok (some (now + (suc n) * 1000000))
expiry now (some (negsuc n)) = err (bad_ttl (negsuc n))

abbrev pub upload_options : UploadQuery → Option ℕ → StoreOptions
upload_options query expires_at = record {
  compress = query.compress;
  encrypt = query.encrypt;
  expires_at = expires_at;
  compression_algorithm = query.compression_algorithm;
  compression_level = query.compression_level;
  encryption_key_id = query.encryption_key_id;
  metadata = none;
}

abbrev timestamp_name : ℕ → Text
timestamp_name now = str "file_" ++ (decimal (now / 1000000) ++ str ".bin")

-- Everything that is checked before anything is stored.
unfoldable pub checked_upload :
    (max_size now : ℕ)
    → UploadQuery
    → (content_length : Option Text) → (body : Result Text Bytes) → StorageResult (Bytes × Option ℕ)
checked_upload max_size now query content_length body =
    and_then (check_length max_size content_length) (λ _.
      and_then (read_body max_size body)
        (λ bytes. and_then (expiry now query.ttl_seconds) (λ expires_at. ok (bytes, expires_at))))

module _ (env : Env) (m : StorageManager) (bucket : Text) where
  unfoldable pub upload_file :
      UploadQuery
      → (filename content_type content_length : Option Text) → (body : Result Text Bytes)
      → Action FileInfo
  upload_file query filename content_type content_length body = do
    now ← gets (λ w. w.now)
    let name = unwrap_or filename (timestamp_name now)
    (bytes, expires_at) ←
        lift (checked_upload m.config.storage.max_file_size now query content_length body)
    file ←
        store_file env m bucket name bytes
          (some (unwrap_or content_type (str "application/octet-stream")))
          (upload_options query expires_at)
    pure (file_info file)

  unfoldable pub handle_file_delete : Text → Action (Unit {0})
  handle_file_delete path = delete_file env bucket (trim_end_matches (str "/info") path)
