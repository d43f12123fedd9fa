-- ===== src/App/Invariant.antt =====
-- Whatever the server is asked, its tables stay consistent.
use rust_local_storage_cdn.Prelude.{
  Text, Bytes, Bool, Option, List, [], Result, arith, trim_end_matches, str,
}
use rust_local_storage_cdn.World.{World, Env}
use rust_local_storage_cdn.World.Actions.{lift}
use rust_local_storage_cdn.Database
use rust_local_storage_cdn.Database.{list_files, get_bucket_stats}
use rust_local_storage_cdn.Database.Search.{Folding, search_files, get_total_counts}
use rust_local_storage_cdn.Keys.{create_key, list_keys, deactivate_key, generate_key_id}
use rust_local_storage_cdn.Storage.Encode.{StorageManager}
use rust_local_storage_cdn.Storage.Store.{store_file}
use rust_local_storage_cdn.Storage.Buckets.{list_file_infos, bucket_counts}
use rust_local_storage_cdn.Storage.Manage.{
  search_file_infos, get_storage_counts, create_encryption_key, list_encryption_keys,
  deactivate_encryption_key, health_check,
}
use rust_local_storage_cdn.Handlers.Download.{AppState}
use rust_local_storage_cdn.Handlers.Upload.{
  UploadQuery, upload_file, checked_upload, handle_file_delete, upload_options,
}
use rust_local_storage_cdn.Handlers.Filename.{
  upload_with_header, extract_filename_from_content_disposition,
}
use rust_local_storage_cdn.Handlers.Manage
use rust_local_storage_cdn.Machine.{IsConsistent}
use rust_local_storage_cdn.Machine.Invariant.{sweep-IsConsistent}
use rust_local_storage_cdn.App.Keeps.{
  Keeps, bind-Keeps, store-Keeps, delete-Keeps, create-Keeps, drop-Keeps,
}
use rust_local_storage_cdn.App.Downloads.{request-Keeps}
use rust_local_storage_cdn.App.Objects.{handle-Keeps}
use rust_local_storage_cdn.App.Preloads.{preload-Keeps}
use rust_local_storage_cdn.App.{
  Call, Crates, dispatch, concurrency_limiter, serve, Step, serves, sweeps, preloads, waits, evicts,
  Reach, here, further,
}

upload-Keeps :
    (env : Env) (m : StorageManager) (bucket : Text) (query : UploadQuery)
    (filename content_type content_length : Option Text) (body : Result Text Bytes)
    → Keeps (upload_file env m bucket query filename content_type content_length body)
unfolding upload_file
upload-Keeps env m bucket query filename content_type content_length body w c =
    bind-Keeps
      (lift (checked_upload m.config.storage.max_file_size w.now query content_length body)) _
      (λ v k. k)
      (λ checked.
        bind-Keeps (store_file env m bucket _ checked.0 _ (upload_options query checked.1)) _
          (store-Keeps env m bucket _ checked.0 _ (upload_options query checked.1)) (λ file v k. k))
      w c

module _ (env : Env) (state : AppState) where
  list-Keeps :
      (bucket : Text) (query : Manage.ListFilesQuery) (token : Option Text)
      → Keeps (Manage.list_files env state bucket query token)
  unfolding Manage.list_files list_file_infos list_files
  list-Keeps bucket query token w c = ground arith

  search-Keeps :
      (f : Folding) (query : Manage.SearchQuery) (token : Option Text)
      → Keeps (Manage.search_files env state f query token)
  unfolding Manage.search_files search_file_infos search_files
  search-Keeps f query token w c = ground arith

  stats-Keeps : (bucket : Text) → Keeps (Manage.get_bucket_stats env state bucket)
  unfolding Manage.get_bucket_stats bucket_counts get_bucket_stats list_files
  stats-Keeps bucket w c = ground arith

  totals-Keeps : Keeps (Manage.get_storage_stats env state)
  unfolding Manage.get_storage_stats get_storage_counts get_total_counts
  totals-Keeps w c = ground arith

  buckets-Keeps : (order : List Text → List Text) → Keeps (Manage.list_buckets env state order)
  unfolding Manage.list_buckets Database.list_buckets
  buckets-Keeps order w c = ground arith

  new_key-Keeps : (req : Manage.CreateKeyRequest) → Keeps (Manage.create_key env state req)
  unfolding Manage.create_key create_encryption_key create_key generate_key_id
  new_key-Keeps req w c = ground arith

  keys-Keeps : Keeps (Manage.list_keys env state)
  unfolding Manage.list_keys list_encryption_keys list_keys
  keys-Keeps w c = ground arith

  drop_key-Keeps : (key_id : Text) → Keeps (Manage.deactivate_key env state key_id)
  unfolding Manage.deactivate_key deactivate_encryption_key deactivate_key
  drop_key-Keeps key_id w c = ground arith

  put_bucket-Keeps : (bucket : Text) → Keeps (Manage.create_bucket env state bucket)
  unfolding Manage.create_bucket
  put_bucket-Keeps bucket =
      bind-Keeps _ _ (create-Keeps env state.storage bucket [] state.storage.config.storage.path)
        (λ u w c. c)

  drop_bucket-Keeps : (bucket : Text) → Keeps (Manage.delete_bucket env state bucket)
  unfolding Manage.delete_bucket
  drop_bucket-Keeps bucket =
      bind-Keeps _ _ (drop-Keeps env state.storage bucket [] state.storage.config.storage.path)
        (λ u w c. c)

module _ (c : Crates) (state : AppState) where
  dispatch-Keeps :
      (call : Call) (w : World) → IsConsistent w → IsConsistent (dispatch c state call w).1
  unfolding dispatch upload_with_header handle_file_delete Manage.health_check_deep health_check
  dispatch-Keeps Call.health w k = k
  dispatch-Keeps Call.health_deep w k = k
  dispatch-Keeps (Call.upload bucket query disposition content_type content_length body) w k =
      upload-Keeps c.env state.storage bucket query
        (extract_filename_from_content_disposition c.decoders disposition) content_type
        content_length body w k
  dispatch-Keeps (Call.list bucket query token) w k = list-Keeps c.env state bucket query token w k
  dispatch-Keeps (Call.bucket_stats bucket) w k = stats-Keeps c.env state bucket w k
  dispatch-Keeps (Call.drop_bucket bucket) w k = drop_bucket-Keeps c.env state bucket w k
  dispatch-Keeps (Call.put_bucket bucket) w k = put_bucket-Keeps c.env state bucket w k
  dispatch-Keeps (Call.buckets order) w k = buckets-Keeps c.env state order w k
  dispatch-Keeps Call.stats w k = totals-Keeps c.env state w k
  dispatch-Keeps (Call.search query token) w k = search-Keeps c.env state c.folding query token w k
  dispatch-Keeps (Call.fetch bucket path token range) w k =
      request-Keeps c.env c.header_value state bucket path token range w k
  dispatch-Keeps (Call.drop bucket path) w k =
      delete-Keeps c.env state.storage bucket (trim_end_matches (str "/info") path) w k
  dispatch-Keeps (Call.new_key req) w k = new_key-Keeps c.env state req w k
  dispatch-Keeps Call.keys w k = keys-Keeps c.env state w k
  dispatch-Keeps (Call.drop_key key_id) w k = drop_key-Keeps c.env state key_id w k
  dispatch-Keeps (Call.s3 request call) w k =
      handle-Keeps c.env c.hashes c.web state request call w k

  serve-IsConsistent :
      (permit : Bool) (call : Call) (w : World)
      → IsConsistent w
      → IsConsistent (serve c state permit call w).1
  unfolding serve concurrency_limiter
  serve-IsConsistent permit call w k = ground (arith, dispatch-Keeps call w)

module _ (state : AppState) where
  moved-IsConsistent : (w w' : World) → Step state w w' → IsConsistent w → IsConsistent w'
  moved-IsConsistent w _ (serves c permit call _) k = serve-IsConsistent c state permit call w k
  moved-IsConsistent w _ (sweeps env _) k = sweep-IsConsistent env state.storage w k
  moved-IsConsistent w _ (preloads env row _) k = preload-Keeps env row w k
  moved-IsConsistent w _ (waits time _) k = k
  moved-IsConsistent w _ (evicts entry _) k = k

  -- However long a server runs and whatever it is asked, one request after another, over HTTP or the
  -- S3-compatible API, with or without a permit, whatever fails on the way and whenever the sweep, the
  -- preloading service and evictions come in between: where no two rows had one bucket and key, and
  -- every file's bucket had its row, at the start, it is so at the end.
  pub Server-IsConsistent : (w w' : World) → Reach state w w' → IsConsistent w → IsConsistent w'
  Server-IsConsistent w _ (here _) k = k
  Server-IsConsistent w w' (further _ w1 _ run step) k =
      moved-IsConsistent w1 w' step (Server-IsConsistent w w1 run k)
