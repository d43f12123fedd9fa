-- ===== src/Concurrent/Steps.antt =====
-- The operations of local-storage/src/storage.rs, cut where they await: each statement, each call of
-- the file system and each call of the cache is one step, and the code between two of them belongs to
-- the second. What becomes of a transaction before its commit is not seen by others. That the database
-- refuses a row whose bucket was removed meanwhile is one of the failures that a request may meet.
use rust_local_storage_cdn.Prelude.{
  Text, Bytes, Bool, not, Option, none, some, List, [], ◌∷◌, filter, text_eq, any, ◌==◌, ℕ,
  if◌then◌else◌, Result, ok, err,
}
use rust_local_storage_cdn.Errors.{StorageError, StorageResult}
use rust_local_storage_cdn.Models.{StoredFile, FileInfo, file_info}
use rust_local_storage_cdn.World.{
  Env, Fault, select_file, delete_file_row, count_references, begin_transaction, commit_transaction,
  select_bucket, insert_bucket, select_bucket_files, create_dir,
}
use rust_local_storage_cdn.World.Actions
use rust_local_storage_cdn.World.Actions.{Action, gets, modify, draw, database_call, io_call}
use rust_local_storage_cdn.Database
use rust_local_storage_cdn.Database.{is_at, lookup, without, or_not_found, save_file, update_access}
use rust_local_storage_cdn.Cache.{
  get_file_metadata, set_file_metadata, get_file_content, set_file_content, invalidate_file,
}
use rust_local_storage_cdn.Storage.Paths.{get_file_path, split_dir, temp_path, path_join}
use rust_local_storage_cdn.Storage.Disk.{write_file, rename, read_disk, unlink, remove_tree}
use rust_local_storage_cdn.Storage.Encode.{
  StoreOptions, StorageManager, compress_stage, encrypt_stage, decode_content,
}
use rust_local_storage_cdn.Storage.Buckets.{
  has_name, insert_bucket_row, delete_bucket_rows, references,
}
use rust_local_storage_cdn.Storage.Store.{aliased_row, stored_row, find_duplicate}
use rust_local_storage_cdn.Storage.Remove.{other_references}
use rust_local_storage_cdn.Storage.Fetch.{has_expired}
use rust_local_storage_cdn.Machine.{Operation}
use rust_local_storage_cdn.Concurrent.Processes.{
  Process, pure, raise, call, ◌>>=◌, ◌>>◌, attempt, ignore,
}

module _ (env : Env) where
  -- BEGIN and the first SELECT
  unfoldable pub find_row : Text → Text → Action StoredFile
  find_row bucket key = Actions.◌>>◌ (database_call env begin_transaction) (
      Actions.◌>>◌ (database_call env (select_file bucket key))
        (Actions.◌>>=◌ (gets (λ w. lookup bucket key w.files)) (or_not_found bucket key)))

  unfoldable pub count_others : Text → Text → Text → Action ℕ
  count_others bucket key path =
      Actions.◌>>◌ (database_call env (count_references path))
        (gets (λ w. other_references path bucket key w.files))

  -- DELETE and COMMIT
  unfoldable pub remove_row : Text → Text → Action (Unit {0})
  remove_row bucket key = Actions.◌>>◌ (database_call env (delete_file_row bucket key)) (
      Actions.◌>>◌ (database_call env commit_transaction)
        (modify (λ w. record w { files = without bucket key w.files })))

  unfoldable pub has_bucket : Text → Action Bool
  has_bucket bucket =
      Actions.◌>>◌ (database_call env (select_bucket bucket))
        (gets (λ w. any (has_name bucket) w.buckets))

  unfoldable pub add_bucket : Text → Action (Unit {0})
  add_bucket bucket =
      Actions.◌>>◌ (database_call env (insert_bucket bucket))
        (modify (λ w. record w { buckets = insert_bucket_row bucket w.now w.buckets }))

  unfoldable pub files_of : Text → Action (List StoredFile)
  files_of bucket =
      Actions.◌>>◌ (database_call env (select_bucket_files bucket))
        (gets (λ w. filter (λ row. text_eq row.bucket bucket) w.files))

  unfoldable pub delete_row_steps : Text → Text → Process (Text × ℕ)
  delete_row_steps bucket key = do
    file ← call (find_row bucket key)
    others ← call (count_others bucket key file.file_path)
    call (remove_row bucket key)
    pure (file.file_path, others)

  unfoldable pub release_steps : Text → ℕ → Process (Unit {0})
  release_steps path others = if others == 0 then ignore (call (unlink env path)) else pure tt

  unfoldable pub delete_steps : Text → Text → Process (Unit {0})
  delete_steps bucket key = do
    (path, others) ← delete_row_steps bucket key
    release_steps path others
    ignore (call (invalidate_file env bucket key))

  unfoldable pub create_steps : (base bucket : Text) → Process (Unit {0})
  create_steps base bucket = do
    call (io_call env (create_dir (path_join base bucket)))
    call (add_bucket bucket)

  unfoldable pub ensure_steps : (base bucket : Text) → Process (Unit {0})
  ensure_steps base bucket = do
    exists ← call (has_bucket bucket)
    if not exists then create_steps base bucket else pure tt

  unfoldable pub release_all_steps : Text → List StoredFile → Process (Unit {0})
  release_all_steps bucket [] = pure tt
  release_all_steps bucket (file ∷ rest) = do
    others ← call (gets (λ w. references env file.file_path w.files))
    release_steps file.file_path others
    ignore (call (invalidate_file env bucket file.key))
    release_all_steps bucket rest

  -- The DELETE with its cascade is one statement in a transaction of its own.
  unfoldable pub drop_steps : (base bucket : Text) → Process (Unit {0})
  drop_steps base bucket = do
    files ← call (files_of bucket)
    call (delete_bucket_rows env base bucket)
    release_all_steps bucket files
    ignore (call (remove_tree env (path_join base bucket)))

module _ (env : Env) (m : StorageManager) (bucket key : Text) where
  unfoldable pub reuse_steps :
      (content : Bytes) → Option Text → StoreOptions → StoredFile → Process StoredFile
  reuse_steps content content_type opts existing =
      if is_at bucket key existing then pure existing else (do
        id ← call (draw env.uuid)
        now ← call (gets (λ w. w.now))
        let file =
            aliased_row id now bucket key (env.blake3 content) (env.md5 content) content_type opts
              existing
        call (save_file env file)
        pure file)

  unfoldable pub cleanup_steps : Text → StorageResult (Unit {0}) → Process (Unit {0})
  cleanup_steps path (ok _) = pure tt
  cleanup_steps path (err e) = do ignore (call (unlink env path)); raise e

  unfoldable pub save_steps : Text → StoredFile → Process (Unit {0})
  save_steps path file = do
    outcome ← attempt (call (save_file env file))
    cleanup_steps path outcome

  unfoldable pub warm_steps : StoredFile → Bytes → Process (Unit {0})
  warm_steps file stored = do
    ignore (call (set_file_metadata env bucket key file))
    ignore (call (set_file_content env bucket key stored))

  unfoldable pub write_steps : Text → Bytes → Process (Unit {0})
  write_steps path stored = do
    call (io_call env (create_dir (split_dir path).0))
    call (write_file env (temp_path path) stored)
    call (rename env (temp_path path) path)

  unfoldable pub record_steps :
      (content : Bytes)
      → Option Text
      → StoreOptions
      → (stored : Bytes) (encrypted : Bool) → Process StoredFile
  record_steps content content_type opts stored encrypted = do
    let squeezed = compress_stage env m opts content
    let path = get_file_path m.config.storage.path bucket key
    id ← call (draw env.uuid)
    now ← call (gets (λ w. w.now))
    let file =
        stored_row m id now bucket key path (env.blake3 content) (env.md5 content) content_type opts
          content squeezed.0 stored squeezed.1 encrypted
    save_steps path file
    warm_steps file stored
    pure file

  unfoldable pub store_new_steps :
      (content : Bytes) → Option Text → StoreOptions → Process StoredFile
  store_new_steps content content_type opts = do
    let squeezed = compress_stage env m opts content
    (stored, encrypted) ← call (encrypt_stage env m opts squeezed.0)
    write_steps (get_file_path m.config.storage.path bucket key) stored
    record_steps content content_type opts stored encrypted

  unfoldable pub store_or_reuse_steps :
      (content : Bytes) → Option Text → StoreOptions → Option StoredFile → Process StoredFile
  store_or_reuse_steps content content_type opts none = store_new_steps content content_type opts
  store_or_reuse_steps content content_type opts (some existing) =
      reuse_steps content content_type opts existing

  unfoldable pub store_steps : (content : Bytes) → Option Text → StoreOptions → Process StoredFile
  store_steps content content_type opts = do
    ensure_steps env m.config.storage.path bucket
    existing ← call (find_duplicate env m bucket key (env.blake3 content))
    store_or_reuse_steps content content_type opts existing

  unfoldable pub cached_or_row_steps : StorageResult (Option StoredFile) → Process StoredFile
  cached_or_row_steps (ok (some file)) = pure file
  cached_or_row_steps _ = do
    file ← call (Database.get_file env bucket key)
    ignore (call (set_file_metadata env bucket key file))
    pure file

  abbrev gone_steps : {A : Type 0} → Process A
  gone_steps = do ignore (delete_steps env bucket key); raise (StorageError.not_found bucket key)

  unfoldable pub unless_expired_steps : StoredFile → Process (Unit {0})
  unless_expired_steps file = do
    now ← call (gets (λ w. w.now))
    if has_expired file.expires_at now then gone_steps else pure tt

  unfoldable pub read_or_gone_steps : Result Fault Bytes → Process Bytes
  read_or_gone_steps (ok content) = do
    ignore (call (set_file_content env bucket key content))
    pure content
  read_or_gone_steps (err f) =
      if f.is_missing_file then gone_steps else raise (StorageError.io f.message)

  unfoldable pub cached_or_disk_steps : Text → StorageResult (Option Bytes) → Process Bytes
  cached_or_disk_steps path (ok (some content)) = pure content
  cached_or_disk_steps path _ = do outcome ← call (read_disk env path); read_or_gone_steps outcome

  unfoldable pub load_row_steps : Process StoredFile
  load_row_steps = do
    cached ← attempt (call (get_file_metadata env bucket key))
    cached_or_row_steps cached

  unfoldable pub load_bytes_steps : Text → Process Bytes
  load_bytes_steps path = do
    cached ← attempt (call (get_file_content env bucket key))
    cached_or_disk_steps path cached

  unfoldable pub get_steps : Process (Bytes × Option Text)
  get_steps = do
    file ← load_row_steps
    unless_expired_steps file
    raw ← load_bytes_steps file.file_path
    content ← call (decode_content env m file raw)
    ignore (call (update_access env file.id))
    pure (content, some file.content_type)

  unfoldable pub info_steps : Process FileInfo
  info_steps = do
    file ← call (Database.get_file env bucket key)
    unless_expired_steps file
    pure (file_info file)

abbrev done : {A : Type 0} → Process A → Process (Unit {0})
done p = p >>= λ a. pure tt

unfoldable pub operation_steps : Env → StorageManager → Operation → Process (Unit {0})
operation_steps env m (Operation.store bucket key content content_type opts) =
    done (store_steps env m bucket key content content_type opts)
operation_steps env m (Operation.read bucket key) = done (get_steps env m bucket key)
operation_steps env m (Operation.info bucket key) = done (info_steps env m bucket key)
operation_steps env m (Operation.remove bucket key) = delete_steps env bucket key
operation_steps env m (Operation.create bucket) = create_steps env m.config.storage.path bucket
operation_steps env m (Operation.drop bucket) = drop_steps env m.config.storage.path bucket
