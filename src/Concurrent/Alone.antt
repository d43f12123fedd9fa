-- ===== src/Concurrent/Alone.antt =====
-- A request that runs alone does what the operation of the storage layer does.
pub mod Removals
pub mod Stores
pub mod Reads
use rust_local_storage_cdn.Prelude.{
  Text, Bytes, Bool, Option, none, some, List, [], ◌∷◌, Result, ok, err, ◌≡◌, refl, arith,
  Option-cases, inl, inr, ℕ, suc, filter, text_eq,
}
use rust_local_storage_cdn.Errors.{StorageError, StorageResult}
use rust_local_storage_cdn.Models.{StoredFile}
use rust_local_storage_cdn.World.{World, Env, Fault, select_bucket_files}
use rust_local_storage_cdn.World.Actions
use rust_local_storage_cdn.World.Actions.{Action, continue}
use rust_local_storage_cdn.Database
use rust_local_storage_cdn.Database.{save_file, update_access}
use rust_local_storage_cdn.Cache.{get_file_metadata, get_file_content, invalidate_file}
use rust_local_storage_cdn.Storage.Paths.{get_file_path, path_join}
use rust_local_storage_cdn.Storage.Disk.{write_file_atomic, read_disk, remove_tree}
use rust_local_storage_cdn.Storage.Encode.{
  StorageManager, StoreOptions, compress_stage, encrypt_stage, decode_content,
}
use rust_local_storage_cdn.Storage.Remove.{delete_file, delete_row, release}
use rust_local_storage_cdn.Storage.Buckets.{
  create_bucket, ensure_bucket_exists, delete_bucket, delete_bucket_rows, release_all, references,
}
use rust_local_storage_cdn.Storage.Store.{
  stored_row, store_file, store_or_reuse, store_new, reuse, save_or_cleanup, cleanup, warm_cache,
  write_bytes, find_duplicate,
}
use rust_local_storage_cdn.Storage.Fetch.{
  has_expired, get_file, get_file_info, load_row, cached_or_row, row_from_database, unless_expired,
  load_bytes, cached_or_disk, read_or_gone,
}
use rust_local_storage_cdn.Machine.{Operation, perform}
use rust_local_storage_cdn.Concurrent.Processes.{
  pure, raise, call, ignore, attempt, ◌>>◌, run, alone-bind, alone-ignore, alone-if,
}
use rust_local_storage_cdn.Concurrent.Steps.{
  find_row, count_others, remove_row, has_bucket, add_bucket, files_of, delete_row_steps,
  release_steps, delete_steps, create_steps, ensure_steps, release_all_steps, drop_steps,
  reuse_steps, cleanup_steps, save_steps, warm_steps, write_steps, store_new_steps, record_steps,
  store_or_reuse_steps, store_steps, cached_or_row_steps, unless_expired_steps, read_or_gone_steps,
  cached_or_disk_steps, load_row_steps, load_bytes_steps, get_steps, info_steps, operation_steps,
}
use rust_local_storage_cdn.Concurrent.Alone.Removals.{delete-alone, create-alone, drop-alone}
use rust_local_storage_cdn.Concurrent.Alone.Stores.{store-alone}
use rust_local_storage_cdn.Concurrent.Alone.Reads.{get-alone, info-alone}

-- The steps of an operation with nothing between them end as the operation of the storage layer does,
-- with the same outcome and in the same world, whichever outside calls fail.
pub operation_steps-perform :
    (env : Env) (m : StorageManager) (op : Operation) (w : World)
    → run (operation_steps env m op) w ≡ perform env m op w
unfolding operation_steps perform
operation_steps-perform env m (Operation.store bucket key content content_type opts) =
    alone-bind (store_steps env m bucket key content content_type opts) _
      (store_file env m bucket key content content_type opts) _
      (store-alone env m bucket key content content_type opts) (λ a w. refl)
operation_steps-perform env m (Operation.read bucket key) =
    alone-bind (get_steps env m bucket key) _ (get_file env m bucket key) _
      (get-alone env m bucket key) (λ a w. refl)
operation_steps-perform env m (Operation.info bucket key) =
    alone-bind (info_steps env m bucket key) _ (get_file_info env m bucket key) _
      (info-alone env m bucket key) (λ a w. refl)
operation_steps-perform env m (Operation.remove bucket key) = delete-alone env bucket key
operation_steps-perform env m (Operation.create bucket) =
    create-alone env m.config.storage.path bucket
operation_steps-perform env m (Operation.drop bucket) = drop-alone env m.config.storage.path bucket
