-- ===== src/App.antt =====
-- local-storage/src/app.rs: the routes, the limit on requests that run at once, and what the server
-- answers. Which route a method and a path belong to is axum's, and so is the answer where there is
-- none: a call carries what the handler of its route extracts. Whether the semaphore has a permit is
-- an argument; the time limit and the headers of the CORS layer are not followed.
pub mod Keeps
pub mod Downloads
pub mod Objects
pub mod Preloads
pub mod Invariant
pub mod RoundTrip
use rust_local_storage_cdn.Prelude.{
  ℕ, ◌+◌, Text, Bytes, Bool, true, false, Option, none, some, List, Result, ok, err, if◌then◌else◌,
  is_some,
}
use rust_local_storage_cdn.Errors.{StorageError, StorageResult}
use rust_local_storage_cdn.Models.{FileInfo}
use rust_local_storage_cdn.World.{World, Env}
use rust_local_storage_cdn.World.Actions.{Action, pure, put}
use rust_local_storage_cdn.Database.Search.{Folding}
use rust_local_storage_cdn.Storage.Remove.{sweep_expired_files}
use rust_local_storage_cdn.Cache.Preload.{CacheConfig, preload_popular_files}
use rust_local_storage_cdn.Handlers.Download
use rust_local_storage_cdn.Handlers.Download.{AppState, handle_file_request}
use rust_local_storage_cdn.Handlers.Upload.{UploadQuery, handle_file_delete}
use rust_local_storage_cdn.Handlers.Filename.{Decoders, upload_with_header}
use rust_local_storage_cdn.Handlers.Manage.{
  EncryptionKeyInfo, CreateKeyRequest, ListFilesQuery, SearchQuery, health_check_deep, list_files,
  search_files, get_bucket_stats, get_storage_stats, create_bucket, delete_bucket, list_buckets,
  create_key, list_keys, deactivate_key,
}
use rust_local_storage_cdn.S3.Errors.{S3Error}
use rust_local_storage_cdn.S3.Auth.{Hashes, Request}
use rust_local_storage_cdn.S3.Xml.{Web}
use rust_local_storage_cdn.S3.Handlers
use rust_local_storage_cdn.S3.Actions.{S3Action}
use rust_local_storage_cdn.S3.Router
use rust_local_storage_cdn.S3.Router.{handle}

-- A request, by its route.
pub data Call : Type 0 where
  -- /health and /health/deep
  health health_deep : Call
  -- /buckets/:bucket/files
  upload :
      (bucket : Text)
      → UploadQuery
      → (disposition : Option Bytes) → (content_type content_length : Option Text)
      → (body : Result Text Bytes) → Call
  list : (bucket : Text) → ListFilesQuery → (token : Option Text) → Call
  -- /buckets/:bucket, /buckets/:bucket/stats, /buckets and /stats
  bucket_stats drop_bucket put_bucket : (bucket : Text) → Call
  buckets : (order_by_name : List Text → List Text) → Call
  stats : Call
  -- /search
  search : SearchQuery → (token : Option Text) → Call
  -- /buckets/:bucket/files/*path
  fetch : (bucket path : Text) → (token range : Option Text) → Call
  drop : (bucket path : Text) → Call
  -- /keys and /keys/:key_id
  new_key : CreateKeyRequest → Call
  keys : Call
  drop_key : (key_id : Text) → Call
  -- /v2
  s3 : Request → Router.Call → Call

-- The parts of other crates.
pub record Crates : Type 0 where
  pub env : Env
  pub decoders : Decoders
  pub header_value : Text → Bool
  pub folding : Folding
  pub hashes : Hashes
  pub web : Web

pub data Reply : Type 0 where
  status : ℕ → Reply
  file_info : FileInfo → Reply
  file_infos : List FileInfo → Reply
  counts : ℕ × ℕ × ℕ × ℕ → Reply
  names : List Text → Reply
  content : Download.Response → Reply
  key_info : ℕ × EncryptionKeyInfo → Reply
  key_infos : List EncryptionKeyInfo → Reply
  s3_response : Handlers.Response → Reply
  error : StorageError → Reply
  s3_error : S3Error → Reply

-- The uploads and the S3-compatible API are merged beside the router that has the limiter.
unfoldable pub is_limited : Call → Bool
is_limited (upload bucket query disposition content_type content_length body) = false
is_limited (s3 request call) = false
is_limited call = true

-- The S3-compatible API is mounted only where it has credentials.
unfoldable pub is_mounted : AppState → Call → Bool
is_mounted state (s3 request call) = is_some state.s3_config
is_mounted state call = true

abbrev pub answer : {A : Type 0} → (A → Reply) → StorageResult A → Reply
answer reply (ok a) = reply a
answer reply (err e) = error e

-- `IntoResponse`, for a value and for an error.
abbrev pub answered : {A : Type 0} → Action A → (A → Reply) → World → Reply × World
answered m reply w = (answer reply (m w).0, (m w).1)

abbrev pub s3_answer : Result S3Error Handlers.Response → Reply
s3_answer (ok response) = s3_response response
s3_answer (err e) = s3_error e

module _ (c : Crates) (state : AppState) where
  unfoldable pub dispatch : Call → World → Reply × World
  dispatch health = answered (pure 200) status
  dispatch health_deep = answered (health_check_deep c.env state) status
  dispatch (upload bucket query disposition content_type content_length body) =
      answered
        (upload_with_header c.env c.decoders state.storage bucket query disposition content_type
          content_length body)
        file_info
  dispatch (list bucket query token) =
      answered (list_files c.env state bucket query token) file_infos
  dispatch (bucket_stats bucket) = answered (get_bucket_stats c.env state bucket) counts
  dispatch (drop_bucket bucket) = answered (delete_bucket c.env state bucket) status
  dispatch (put_bucket bucket) = answered (create_bucket c.env state bucket) status
  dispatch (buckets order_by_name) = answered (list_buckets c.env state order_by_name) names
  dispatch stats = answered (get_storage_stats c.env state) counts
  dispatch (search query token) =
      answered (search_files c.env state c.folding query token) file_infos
  dispatch (fetch bucket path token range) =
      answered (handle_file_request c.env c.header_value state bucket path token range) content
  dispatch (drop bucket path) =
      answered (handle_file_delete c.env state.storage bucket path) (λ u. status 204)
  dispatch (new_key req) = answered (create_key c.env state req) key_info
  dispatch keys = answered (list_keys c.env state) key_infos
  dispatch (drop_key key_id) = answered (deactivate_key c.env state key_id) status
  dispatch (s3 request call) =
      λ w. let (r, w') = handle c.env c.hashes c.web state request call w in (s3_answer r, w')

  -- `concurrency_limiter`: without a permit the request is refused and nothing runs.
  unfoldable pub concurrency_limiter :
      (permit : Bool) → (next : World → Reply × World) → World → Reply × World
  concurrency_limiter true next w = next w
  concurrency_limiter false next w = (status 429, w)

  -- `create_router`: a route that is not mounted is not found.
  unfoldable pub serve : (permit : Bool) → Call → World → Reply × World
  serve permit call w =
      if is_mounted state call
      then (if is_limited call
          then concurrency_limiter permit (dispatch call) w
          else dispatch call w)
      else (status 404, w)

-- What happens to the data of a running server: it answers a request, the background tasks remove
-- the expired files and preload popular ones, time passes, a cache entry is evicted. The parts of
-- other crates, and what fails there, may differ from step to step.
pub data Step (state : AppState) : World → World → Type 0 where
  serves :
      (c : Crates) (permit : Bool) (call : Call) (w : World)
      → Step state w (serve c state permit call w).1
  sweeps : (env : Env) (w : World) → Step state w (sweep_expired_files env w).1
  preloads :
      (env : Env) (row : Option CacheConfig) (w : World)
      → Step state w (preload_popular_files env row w).1
  waits : (time : ℕ) (w : World) → Step state w (record w { now = w.now + time })
  evicts : (entry : Text) (w : World) → Step state w (record w { cache = put entry none w.cache })

pub data Reach (state : AppState) : World → World → Type 0 where
  here : (w : World) → Reach state w w
  further : (w w1 w2 : World) → Reach state w w1 → Step state w1 w2 → Reach state w w2
