-- ===== src/Handlers/Download.antt =====
-- `download_is_authorized`, `require_download_token` and `handle_file_request` of
-- local-storage/src/handlers/file_handlers.rs: who may read, and which of the storage layer's reads
-- answers a request. A header is the text that `HeaderValue::to_str` gives, if there is one; whether
-- a text may stand in a header is a parameter.
pub mod Laws
use rust_local_storage_cdn.Prelude.{
  ℕ, ◌+◌, ◌-◌, Text, Bytes, str, text_eq, Bool, true, false, not, Option, none, some, List, ◌++◌,
  any, length, take, drop, contains, strip_prefix, ends_with, trim_end_matches, decimal,
  if◌then◌else◌, ok, err,
}
use rust_local_storage_cdn.Errors.{StorageError, StorageResult}
use rust_local_storage_cdn.Config.{S3Config}
use rust_local_storage_cdn.Models.{FileInfo}
use rust_local_storage_cdn.World.{Env}
use rust_local_storage_cdn.World.Actions.{Action, pure, raise, lift, ◌>>=◌, ◌>>◌, attempt}
use rust_local_storage_cdn.Storage.Encode.{StorageManager}
use rust_local_storage_cdn.Storage.Fetch.{
  get_file, get_file_info, get_file_range_if_plain, get_compressed_file_range, Partial,
}
use rust_local_storage_cdn.Handlers.Range.{parse_range_header}

-- Is the bucket one of the protected ones? A request for no particular bucket always is.
abbrev pub in_scope : Option (List Text) → Option Text → Bool
in_scope none requested = true
in_scope (some allowlist) none = true
in_scope (some allowlist) (some name) = any (λ b. text_eq b name) allowlist

abbrev pub presents : Text → Option Text → Bool
presents expected none = false
presents expected (some provided) = text_eq provided expected

unfoldable pub download_is_authorized :
    (expected_token : Option Text) (protected_buckets : Option (List Text))
    (requested_bucket provided_token : Option Text)
    → Bool
download_is_authorized none buckets requested provided = true
download_is_authorized (some expected) buckets requested provided =
    if not (in_scope buckets requested) then true else presents expected provided

-- `AppState` of local-storage/src/app.rs without its request semaphore: what the handlers keep.
pub record AppState : Type 0 where
  pub storage : StorageManager
  -- the credentials of the S3-compatible API, without which it is not mounted
  pub s3_config : Option S3Config
  pub download_protection_token : Option Text
  pub protected_read_buckets : Option (List Text)

abbrev pub token_required : StorageError
token_required =
    StorageError.forbidden (str "valid X-Activator-Write-Token header required to read this bucket")

unfoldable pub require_download_token :
    AppState → (bucket provided : Option Text) → StorageResult (Unit {0})
require_download_token state bucket provided =
    if download_is_authorized state.download_protection_token state.protected_read_buckets bucket
      provided
    then ok tt
    else err token_required

-- 200 with the information or the content, 206 with a slice, or 416.
pub data Response : Type 0 where
  json_info : FileInfo → Response
  full_content : Option Text → Bytes → Response
  partial_content : (content_type : Option Text) (start end total : ℕ) → Bytes → Response
  range_not_satisfiable : (total : ℕ) → Response

module _ (env : Env) (header_value : Text → Bool) (state : AppState) (bucket key : Text) where
  abbrev checked : Text → Text → Action (Unit {0})
  checked value message =
      if header_value value then pure tt else raise (StorageError.bad_request message)

  abbrev content_range : (start end total : ℕ) → Text
  content_range start end total =
      str "bytes " ++ (decimal start ++ (str "-" ++ (decimal end ++ (str "/" ++ decimal total))))

  abbrev pub part : (content_type : Text) (start end total : ℕ) → Bytes → Action (Option Response)
  part content_type start end total slice = do
    checked content_type (str "Invalid content type")
    checked (content_range start end total) (str "Invalid range")
    pure (some (partial_content (some content_type) start end total slice))

  -- The second fast path; where it declines, none.
  abbrev pub compressed_part :
      (start end : ℕ) → StorageResult (Option (Bytes × Text × ℕ)) → Action (Option Response)
  compressed_part start end (ok (some (slice, content_type, total))) =
      part content_type start end total slice
  compressed_part start end _ = pure none

  -- The first fast path, and then the second.
  abbrev pub plain_part :
      (start end : ℕ) → StorageResult (Option (Bytes × Text × ℕ)) → Action (Option Response)
  plain_part start end (ok (some (slice, content_type, total))) =
      part content_type start end total slice
  plain_part start end _ = do
    squeezed ← attempt (get_compressed_file_range env state.storage bucket key start end)
    compressed_part start end squeezed

  -- A single range that cannot be served is refused; several ranges are not understood.
  abbrev pub unsatisfiable : (total : ℕ) → Option Text → Action (Option Response)
  unsatisfiable total none = pure none
  unsatisfiable total (some spec) = if contains b',' spec then pure none else (do
    checked (str "bytes */" ++ decimal total) (str "Invalid range")
    pure (some (range_not_satisfiable total)))

  abbrev pub ranged : Text → (total : ℕ) → Option (ℕ × ℕ) → Action (Option Response)
  ranged value total (some (start, end)) = do
    plain ← attempt (get_file_range_if_plain env state.storage bucket key start end)
    plain_part start end plain
  ranged value total none = unsatisfiable total (strip_prefix (str "bytes=") value)

  abbrev pub with_info : Text → StorageResult FileInfo → Action (Option Response)
  with_info value (ok info) =
      ranged value info.original_size (parse_range_header value info.original_size)
  with_info value (err e) = pure none

  unfoldable pub fast_path : Option Text → Action (Option Response)
  fast_path none = pure none
  fast_path (some value) = do
    info ← attempt (get_file_info env state.storage bucket key)
    with_info value info

  abbrev pub checked_type : Option Text → Action (Unit {0})
  checked_type none = pure tt
  checked_type (some content_type) = checked content_type (str "Invalid content type")

  -- The requested slice of the decoded content, or all of it.
  abbrev pub slice_of : Option Text → Bytes → Option (ℕ × ℕ) → Action Response
  slice_of content_type content none = pure (full_content content_type content)
  slice_of content_type content (some (start, end)) = do
    checked (content_range start end (length content)) (str "Invalid range")
    pure (
        partial_content content_type start end (length content)
          (take (end + 1 - start) (drop start content)))

  abbrev pub requested : Option Text → ℕ → Option (ℕ × ℕ)
  requested none total = none
  requested (some value) total = parse_range_header value total

  unfoldable pub full_path : Option Text → Action Response
  full_path range = do
    (content, content_type) ← get_file env state.storage bucket key
    checked_type content_type
    slice_of content_type content (requested range (length content))

  abbrev pub or_full_path : Option Text → Option Response → Action Response
  or_full_path range (some response) = pure response
  or_full_path range none = full_path range

  unfoldable pub serve_content : Option Text → Action Response
  serve_content range = do response ← fast_path range; or_full_path range response

  unfoldable pub serve_info : Action Response
  serve_info = do info ← get_file_info env state.storage bucket key; pure (json_info info)

unfoldable pub handle_file_request :
    Env
    → (header_value : Text → Bool) → AppState
    → (bucket path : Text) (token range : Option Text) → Action Response
handle_file_request env header_value state bucket path token range = do
  lift (require_download_token state (some bucket) token)
  if ends_with (str "/info") path
      then serve_info env header_value state bucket (trim_end_matches (str "/info") path)
      else serve_content env header_value state bucket path range
