-- ===== src/S3/Handlers.antt =====
-- local-storage/src/s3/handlers.rs: what the handlers share, and those of buckets. A path, a query and
-- the body are what axum extracts; the headers that axum adds to a body by itself are not followed.
pub mod Objects
pub mod Batch
pub mod Deletes
pub mod Listing
pub mod RoundTrip
use rust_local_storage_cdn.Prelude.{
  ℕ, zero, suc, ◌+◌, Text, Bytes, str, Bool, Option, none, some, List, [], ◌∷◌, ◌++◌, map, length,
  take, ltb, if◌then◌else◌, ℤ, pos, negsuc, ok, err, and_then, ok_or, unwrap_or,
}
use Prim.Native.Nat.{min}
use rust_local_storage_cdn.Config.{S3Config}
use rust_local_storage_cdn.Models.{FileInfo}
use rust_local_storage_cdn.World.{Env}
use rust_local_storage_cdn.Database.{list_buckets_with_created_at}
use rust_local_storage_cdn.Storage.Buckets
use rust_local_storage_cdn.Storage.Buckets.{list_file_infos}
use rust_local_storage_cdn.Handlers.Download.{AppState}
use rust_local_storage_cdn.S3.Errors.{S3Error, S3Result, internal}
use rust_local_storage_cdn.S3.Auth.{Hashes, Request}
use rust_local_storage_cdn.S3.Auth.Verify.{verify_sigv4}
use rust_local_storage_cdn.S3.Actions.{S3Action, pure, lift, ◌>>=◌, ◌>>◌, gets, converted}
use rust_local_storage_cdn.S3.Xml.{
  Web, Document, ListAllMyBucketsResult, BucketEntry, ListBucketResult, Content, xmlns, to_xml,
}

pub record Response : Type 0 where
  pub status : ℕ
  pub headers : List (Text × Text)
  pub body : Bytes

abbrev pub not_implemented : S3Error
not_implemented = record {
  status = 501;
  code = str "NotImplemented";
  message = str "S3 v2 API is not configured";
  resource = [];
}

unfoldable pub require_s3_config : AppState → S3Result S3Config
require_s3_config state = ok_or state.s3_config not_implemented

unfoldable pub verify : Hashes → AppState → Request → S3Action (Unit {0})
verify h state r w =
    (and_then (require_s3_config state) (λ s3_config. verify_sigv4 h w.now r s3_config), w)

-- format!("\"{}\"", hash_md5)
unfoldable pub etag : Text → Text
etag hash_md5 = str "\"" ++ (hash_md5 ++ str "\"")

abbrev pub empty_response : ℕ → Response
empty_response status = record { status = status; headers = []; body = [] }

abbrev pub xml_response : Web → Document → Response
xml_response web value = record {
  status = 200;
  headers = (str "content-type", str "application/xml") ∷ [];
  body = to_xml web value;
}

-- `(StatusCode::OK, [(name, value)]).into_response()`: a value that is no header makes axum answer
-- with an internal error.
abbrev pub header_response : Web → (name value : Text) → Response
header_response web name value =
    if web.header_value value
    then record { status = 200; headers = (name, value) ∷ []; body = [] }
    else record { status = 500; headers = []; body = web.header_error value }

abbrev bucket_entry : Web → Text × ℕ → BucketEntry
bucket_entry web (name, created_at) = record {
  name = name;
  creation_date = web.to_rfc3339 created_at;
}

abbrev buckets_result : Web → List (Text × ℕ) → ListAllMyBucketsResult
buckets_result web buckets = record {
  xmlns = xmlns;
  owner = record { id = str "local"; display_name = str "local" };
  buckets = record { bucket = map (bucket_entry web) buckets };
}

pub record ListObjectsQuery : Type 0 where
  pub prefix : Option Text
  pub max_keys : Option ℤ

-- `.clamp(1, 1000)`
abbrev pub clamp : ℤ → ℕ
clamp (pos zero) = 1
clamp (pos (suc n)) = min (suc n) 1000
clamp (negsuc n) = 1

unfoldable pub page_size : ListObjectsQuery → ℕ
page_size query = clamp (unwrap_or query.max_keys (pos 1000))

unfoldable pub content_entry : Web → FileInfo → Content
content_entry web f = record {
  key = f.key;
  last_modified = web.to_rfc3339 f.upload_time;
  etag = etag f.hash_md5;
  size = f.file_size;
  storage_class = str "STANDARD";
}

-- One row more than the page was asked for: it tells that there are more, and is cut off.
unfoldable pub listing : Web → (bucket : Text) → ListObjectsQuery → List FileInfo → ListBucketResult
listing web bucket query files =
    let max_keys = page_size query in
    let page = take max_keys files in
    record {
      xmlns = xmlns;
      name = bucket;
      prefix = unwrap_or query.prefix [];
      key_count = length page;
      max_keys = pos max_keys;
      is_truncated = ltb max_keys (length files);
      contents = map (content_entry web) page;
    }

module _ (env : Env) (h : Hashes) (web : Web) (state : AppState) (r : Request) where
  unfoldable pub list_buckets : (List (Text × ℕ) → List (Text × ℕ)) → S3Action Response
  list_buckets order_by_name = do
    verify h state r
    buckets ← converted (list_buckets_with_created_at env order_by_name)
    pure (xml_response web (Document.all_my_buckets (buckets_result web buckets)))

  unfoldable pub create_bucket : Text → S3Action Response
  create_bucket bucket = do
    verify h state r
    converted (Buckets.create_bucket env state.storage.config.storage.path bucket)
    pure (header_response web (str "location") (str "/" ++ bucket))

  unfoldable pub delete_bucket : Text → S3Action Response
  delete_bucket bucket = do
    verify h state r
    converted (Buckets.delete_bucket env state.storage.config.storage.path bucket)
    pure (empty_response 204)

  unfoldable pub list_objects_v2 : Text → ListObjectsQuery → S3Action Response
  list_objects_v2 bucket query = do
    verify h state r
    files ←
        converted (
          list_file_infos env bucket query.prefix (some (pos (page_size query + 1))) (some (pos 0)))
    pure (xml_response web (Document.list_bucket (listing web bucket query files)))
