-- ===== src/S3/Router.antt =====
-- local-storage/src/s3/mod.rs: the routes of the S3-compatible API. Which route a method and a path
-- belong to is axum's; a call carries what the handler of its route extracts.
pub mod Laws
use rust_local_storage_cdn.Prelude.{ℕ, Text, Option, List}
use rust_local_storage_cdn.World.{Env}
use rust_local_storage_cdn.Handlers.Download.{AppState}
use rust_local_storage_cdn.S3.Auth.{Hashes, Request}
use rust_local_storage_cdn.S3.Actions.{S3Action}
use rust_local_storage_cdn.S3.Xml.{Web}
use rust_local_storage_cdn.S3.Handlers.{
  Response, ListObjectsQuery, list_buckets, create_bucket, delete_bucket, list_objects_v2,
}
use rust_local_storage_cdn.S3.Handlers.Objects.{put_object, get_object, head_object, delete_object}
use rust_local_storage_cdn.S3.Handlers.Batch.{bucket_post}

pub data Call : Type 0 where
  -- GET /v2 and GET /v2/, with how the database orders the names
  get_root : (List (Text × ℕ) → List (Text × ℕ)) → Call
  -- /v2/:bucket
  put_bucket drop_bucket : Text → Call
  get_bucket : Text → ListObjectsQuery → Call
  post_bucket : Text → (Text → Option Text) → Call
  -- /v2/:bucket/*key
  put_key get_key head_key drop_key : (bucket key : Text) → Call

module _ (env : Env) (h : Hashes) (web : Web) (state : AppState) (r : Request) where
  unfoldable pub handle : Call → S3Action Response
  handle (get_root order) = list_buckets env h web state r order
  handle (put_bucket bucket) = create_bucket env h web state r bucket
  handle (drop_bucket bucket) = delete_bucket env h web state r bucket
  handle (get_bucket bucket query) = list_objects_v2 env h web state r bucket query
  handle (post_bucket bucket query) = bucket_post env bucket h web state r query
  handle (put_key bucket key) = put_object env h web state r bucket key
  handle (get_key bucket key) = get_object env h web state r bucket key
  handle (head_key bucket key) = head_object env h web state r bucket key
  handle (drop_key bucket key) = delete_object env h web state r bucket key
