-- ===== src/S3/Handlers/Objects.antt =====
-- local-storage/src/s3/handlers.rs: the handlers of one object.
use rust_local_storage_cdn.Prelude.{
  ℕ, suc, ◌+◌, ◌*◌, Text, Bytes, str, Option, none, some, List, [], ◌∷◌, ◌++◌, if◌then◌else◌, ℤ,
  pos, Bool, true, false, ok, err, ok_or, map_err, and_then, decimal, parse_i64, split_once,
  trim_start_byte,
}
use rust_local_storage_cdn.Errors.{StorageError, StorageResult}
use rust_local_storage_cdn.Models.{StoredFile, FileInfo}
use rust_local_storage_cdn.World.{Env}
use rust_local_storage_cdn.Storage.Encode.{default_options}
use rust_local_storage_cdn.Storage.Store.{store_file}
use rust_local_storage_cdn.Storage.Fetch.{get_file, get_file_info}
use rust_local_storage_cdn.Storage.Remove.{delete_file}
use rust_local_storage_cdn.Handlers.Download.{AppState}
use rust_local_storage_cdn.S3.Errors.{S3Error, S3Result, invalid_request, from_storage}
use rust_local_storage_cdn.S3.Auth.{Hashes, Request}
use rust_local_storage_cdn.S3.Actions.{S3Action, pure, lift, ◌>>=◌, ◌>>◌, gets, converted, outcome}
use rust_local_storage_cdn.S3.Xml.{Web, Document, CopyObjectResult, xmlns}
use rust_local_storage_cdn.S3.Handlers.{
  Response, verify, etag, empty_response, xml_response, header_response,
}

-- `x-amz-copy-source`: the bucket and the key after any leading slashes.
unfoldable pub copy_source : Text → S3Result (Text × Text)
copy_source source =
    ok_or (split_once b'/' (trim_start_byte b'/' source))
      (invalid_request (str "Invalid x-amz-copy-source"))

abbrev bad_ttl : S3Error
bad_ttl = invalid_request (str "X-Ttl-Seconds must be a positive integer")

abbrev expiry_of : (now : ℕ) → Option ℤ → S3Result (Option ℕ)
expiry_of now (some (pos (suc n))) = ok (some (now + (suc n) * 1000000))
expiry_of now _ = err bad_ttl

-- `x-ttl-seconds`: the expiry in microseconds. A TTL that chrono cannot add to the clock, where the
-- source panics, is not followed.
unfoldable pub object_expiry : (now : ℕ) → Option Text → S3Result (Option ℕ)
object_expiry now none = ok none
object_expiry now (some raw) = expiry_of now (parse_i64 raw)

abbrev time_text : Web → Option ℕ → Text
time_text web none = str ""
time_text web (some t) = web.to_rfc3339 t

unfoldable pub copy_result : Web → StoredFile → CopyObjectResult
copy_result web file = record {
  xmlns = xmlns;
  etag = etag file.hash_md5;
  last_modified = time_text web file.upload_time;
}

-- `insert`, where the value can stand in a header.
abbrev pub header_if : Web → (name value : Text) → List (Text × Text)
header_if web name value = if web.header_value value then (name, value) ∷ [] else []

abbrev header_if_some : Web → Text → Option Text → List (Text × Text)
header_if_some web name none = []
header_if_some web name (some value) = header_if web name value

unfoldable pub object_response : Web → Bytes → Option Text → FileInfo → Response
object_response web content content_type info = record {
  status = 200;
  headers =
      header_if_some web (str "content-type") content_type
      ++ header_if web (str "etag") (etag info.hash_md5);
  body = content;
}

unfoldable pub head_response : Web → FileInfo → Response
head_response web info = record {
  status = 200;
  headers =
      header_if web (str "content-type") info.content_type
      ++ (header_if web (str "etag") (etag info.hash_md5)
          ++ header_if web (str "content-length") (decimal info.file_size));
  body = [];
}

-- `Ok(()) | Err(StorageError::NotFound { .. })`: deleting a key that is absent is a success.
unfoldable pub is_done : StorageResult (Unit {0}) → Bool
is_done (ok _) = true
is_done (err (StorageError.not_found bucket key)) = true
is_done (err e) = false

unfoldable pub deleted_response : StorageResult (Unit {0}) → S3Result Response
deleted_response result =
    if is_done result
    then ok (empty_response 204)
    else map_err from_storage (and_then result (λ u. ok (empty_response 204)))

module _ (env : Env) (h : Hashes) (web : Web) (state : AppState) (r : Request)
    (bucket key : Text) where
  unfoldable pub copy_object : Text → S3Action Response
  copy_object source = do
    (src_bucket, src_key) ← lift (copy_source source)
    (content, content_type) ← converted (get_file env state.storage src_bucket src_key)
    file ← converted (store_file env state.storage bucket key content content_type default_options)
    pure (xml_response web (Document.copy_object (copy_result web file)))

  unfoldable pub put_content : S3Action Response
  put_content = do
    now ← gets (λ w. w.now)
    expires_at ← lift (object_expiry now (r.headers (str "x-ttl-seconds")))
    file ← converted (
        store_file env state.storage bucket key r.body (r.headers (str "content-type"))
          (record default_options { expires_at = expires_at }))
    pure (header_response web (str "etag") (etag file.hash_md5))

  -- CopyObject has the route of PutObject; a header tells them apart.
  unfoldable pub copy_or_put : Option Text → S3Action Response
  copy_or_put none = put_content
  copy_or_put (some source) = copy_object source

  unfoldable pub put_object : S3Action Response
  put_object = do verify h state r; copy_or_put (r.headers (str "x-amz-copy-source"))

  unfoldable pub get_object : S3Action Response
  get_object = do
    verify h state r
    (content, content_type) ← converted (get_file env state.storage bucket key)
    info ← converted (get_file_info env state.storage bucket key)
    pure (object_response web content content_type info)

  unfoldable pub head_object : S3Action Response
  head_object = do
    verify h state r
    info ← converted (get_file_info env state.storage bucket key)
    pure (head_response web info)

  unfoldable pub delete_object : S3Action Response
  delete_object = do
    verify h state r
    result ← outcome (delete_file env bucket key)
    lift (deleted_response result)
