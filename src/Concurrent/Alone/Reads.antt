-- ===== src/Concurrent/Alone/Reads.antt =====
-- A request alone that reads a file or its information.
use rust_local_storage_cdn.Prelude.{
  Text, Bytes, Option, none, some, Result, ok, err, ◌≡◌, refl, arith,
}
use rust_local_storage_cdn.Errors.{StorageError, StorageResult}
use rust_local_storage_cdn.Models.{StoredFile}
use rust_local_storage_cdn.World.{World, Env, Fault}
use rust_local_storage_cdn.World.Actions
use rust_local_storage_cdn.World.Actions.{Action, continue}
use rust_local_storage_cdn.Database
use rust_local_storage_cdn.Database.{save_file, update_access}
use rust_local_storage_cdn.Cache.{get_file_metadata, get_file_content}
use rust_local_storage_cdn.Storage.Disk.{read_disk}
use rust_local_storage_cdn.Storage.Encode.{StorageManager, decode_content}
use rust_local_storage_cdn.Storage.Remove.{delete_file}
use rust_local_storage_cdn.Storage.Fetch.{
  has_expired, get_file, get_file_info, load_row, cached_or_row, row_from_database, unless_expired,
  load_bytes, cached_or_disk, read_or_gone,
}
use rust_local_storage_cdn.Concurrent.Processes.{
  pure, raise, call, ignore, attempt, ◌>>◌, run, alone-bind, alone-ignore, alone-if,
}
use rust_local_storage_cdn.Concurrent.Steps.{
  delete_steps, cached_or_row_steps, unless_expired_steps, read_or_gone_steps, cached_or_disk_steps,
  load_row_steps, load_bytes_steps, get_steps, info_steps,
}
use rust_local_storage_cdn.Concurrent.Alone.Removals.{delete-alone}

module _ (env : Env) (m : StorageManager) (bucket key : Text) where
  row_from_database-alone :
      (w : World)
      → run (cached_or_row_steps env m bucket key (ok none)) w
        ≡ row_from_database env m bucket key w
  unfolding cached_or_row_steps row_from_database
  row_from_database-alone w = ground arith

  cached_or_row-alone :
      (r : StorageResult (Option StoredFile)) (w : World)
      → run (cached_or_row_steps env m bucket key r) w ≡ cached_or_row env m bucket key r w
  unfolding cached_or_row_steps cached_or_row
  cached_or_row-alone (ok (some file)) w = refl
  cached_or_row-alone (ok none) w = row_from_database-alone w
  cached_or_row-alone (err e) w = row_from_database-alone w

  gone-alone :
      {A : Type 0} (w : World)
      → run
          (ignore (delete_steps env bucket key)
            >> raise {A = A} (StorageError.not_found bucket key))
          w
        ≡ Actions.◌>>◌
            (Actions.ignore (delete_file env bucket key))
            (Actions.raise {A = A} (StorageError.not_found bucket key))
            w
  gone-alone =
      alone-bind (ignore (delete_steps env bucket key)) _
        (Actions.ignore (delete_file env bucket key)) _
        (alone-ignore (delete_steps env bucket key) (delete_file env bucket key)
          (delete-alone env bucket key))
        (λ u w. refl)

  unless_expired-alone :
      (file : StoredFile) (w : World)
      → run (unless_expired_steps env m bucket key file) w ≡ unless_expired env m bucket key file w
  unfolding unless_expired_steps unless_expired
  unless_expired-alone file w =
      alone-if (has_expired file.expires_at w.now)
        (ignore (delete_steps env bucket key) >> raise (StorageError.not_found bucket key))
        (pure tt)
        (Actions.◌>>◌ (Actions.ignore (delete_file env bucket key))
          (Actions.raise (StorageError.not_found bucket key)))
        (Actions.pure tt) gone-alone (λ v. refl) w

  read_or_gone-alone :
      (r : Result Fault Bytes) (w : World)
      → run (read_or_gone_steps env m bucket key r) w ≡ read_or_gone env m bucket key r w
  unfolding read_or_gone_steps read_or_gone
  read_or_gone-alone (ok content) w = refl
  read_or_gone-alone (err f) w =
      alone-if f.is_missing_file
        (ignore (delete_steps env bucket key) >> raise (StorageError.not_found bucket key))
        (raise (StorageError.io f.message))
        (Actions.◌>>◌ (Actions.ignore (delete_file env bucket key))
          (Actions.raise (StorageError.not_found bucket key)))
        (Actions.raise (StorageError.io f.message)) gone-alone (λ v. refl) w

  disk-alone :
      (path : Text) (w : World)
      → run (cached_or_disk_steps env m bucket key path (ok none)) w
        ≡ cached_or_disk env m bucket key path (ok none) w
  unfolding cached_or_disk_steps cached_or_disk
  disk-alone path =
      alone-bind (call (read_disk env path)) _ (read_disk env path) _ (λ w. refl) read_or_gone-alone

  cached_or_disk-alone :
      (path : Text) (r : StorageResult (Option Bytes)) (w : World)
      → run (cached_or_disk_steps env m bucket key path r) w
        ≡ cached_or_disk env m bucket key path r w
  unfolding cached_or_disk_steps cached_or_disk
  cached_or_disk-alone path (ok (some content)) w = refl
  cached_or_disk-alone path (ok none) w = disk-alone path w
  cached_or_disk-alone path (err e) w = disk-alone path w

  load_row-alone :
      (w : World) → run (load_row_steps env m bucket key) w ≡ load_row env m bucket key w
  unfolding load_row_steps load_row
  load_row-alone =
      alone-bind (attempt (call (get_file_metadata env bucket key)))
        (cached_or_row_steps env m bucket key) (Actions.attempt (get_file_metadata env bucket key))
        _ (λ w. refl) cached_or_row-alone

  load_bytes-alone :
      (path : Text) (w : World)
      → run (load_bytes_steps env m bucket key path) w ≡ load_bytes env m bucket key path w
  unfolding load_bytes_steps load_bytes
  load_bytes-alone path =
      alone-bind (attempt (call (get_file_content env bucket key)))
        (cached_or_disk_steps env m bucket key path)
        (Actions.attempt (get_file_content env bucket key)) _ (λ w. refl)
        (cached_or_disk-alone path)

  pub get-alone : (w : World) → run (get_steps env m bucket key) w ≡ get_file env m bucket key w
  unfolding get_steps get_file
  get-alone =
      alone-bind (load_row_steps env m bucket key) _ (load_row env m bucket key) _ load_row-alone
        (λ file.
          alone-bind (unless_expired_steps env m bucket key file) _
            (unless_expired env m bucket key file) _ (unless_expired-alone file)
            (λ u.
              alone-bind (load_bytes_steps env m bucket key file.file_path) _
                (load_bytes env m bucket key file.file_path) _ (load_bytes-alone file.file_path)
                (λ raw.
                  alone-bind (call (decode_content env m file raw)) _
                    (decode_content env m file raw) _ (λ w. refl) (λ content w. refl))))

  pub info-alone :
      (w : World) → run (info_steps env m bucket key) w ≡ get_file_info env m bucket key w
  unfolding info_steps get_file_info
  info-alone =
      alone-bind (call (Database.get_file env bucket key)) _ (Database.get_file env bucket key) _
        (λ w. refl)
        (λ file.
          alone-bind (unless_expired_steps env m bucket key file) _
            (unless_expired env m bucket key file) _ (unless_expired-alone file) (λ u w. refl))
