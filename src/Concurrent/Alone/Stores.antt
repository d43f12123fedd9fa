-- ===== src/Concurrent/Alone/Stores.antt =====
-- A request alone that stores a file.
use rust_local_storage_cdn.Prelude.{
  Text, Bytes, Bool, Option, none, some, ok, err, ◌≡◌, refl, arith, suc,
}
use rust_local_storage_cdn.Errors.{StorageResult}
use rust_local_storage_cdn.Models.{StoredFile}
use rust_local_storage_cdn.World.{World, Env}
use rust_local_storage_cdn.World.Actions
use rust_local_storage_cdn.World.Actions.{Action, continue}
use rust_local_storage_cdn.Database.{save_file}
use rust_local_storage_cdn.Storage.Paths.{get_file_path}
use rust_local_storage_cdn.Storage.Disk.{write_file_atomic}
use rust_local_storage_cdn.Storage.Encode.{
  StorageManager, StoreOptions, compress_stage, encrypt_stage,
}
use rust_local_storage_cdn.Storage.Buckets.{ensure_bucket_exists}
use rust_local_storage_cdn.Storage.Store.{
  stored_row, store_file, store_or_reuse, store_new, reuse, save_or_cleanup, cleanup, warm_cache,
  write_bytes, find_duplicate,
}
use rust_local_storage_cdn.Concurrent.Processes.{pure, call, attempt, ◌>>◌, run, alone-bind}
use rust_local_storage_cdn.Concurrent.Steps.{
  ensure_steps, reuse_steps, cleanup_steps, save_steps, warm_steps, write_steps, store_new_steps,
  record_steps, store_or_reuse_steps, store_steps,
}
use rust_local_storage_cdn.Concurrent.Alone.Removals.{ensure-alone}

module _ (env : Env) (m : StorageManager) (bucket key : Text) where
  reuse-alone :
      (content : Bytes) (content_type : Option Text) (opts : StoreOptions) (existing : StoredFile)
      (w : World)
      → run (reuse_steps env m bucket key content content_type opts existing) w
        ≡ reuse env m bucket key content content_type opts existing w
  unfolding reuse_steps reuse
  reuse-alone content content_type opts existing w = ground arith

  cleanup-alone :
      (path : Text) (r : StorageResult (Unit {0})) (w : World)
      → run (cleanup_steps env m bucket key path r) w ≡ cleanup env m bucket key path r w
  unfolding cleanup_steps cleanup
  cleanup-alone path (ok u) w = refl
  cleanup-alone path (err e) w = refl

  save-alone :
      (path : Text) (file : StoredFile) (w : World)
      → run (save_steps env m bucket key path file) w ≡ save_or_cleanup env m bucket key path file w
  unfolding save_steps save_or_cleanup
  save-alone path file =
      alone-bind (attempt (call (save_file env file))) (cleanup_steps env m bucket key path)
        (Actions.attempt (save_file env file)) _ (λ w. refl) (cleanup-alone path)

  write-alone :
      (path : Text) (stored : Bytes) (w : World)
      → run (write_steps env m bucket key path stored) w
        ≡ write_bytes env m bucket key path stored w
  unfolding write_steps write_bytes write_file_atomic
  write-alone path stored w = ground arith

  store_new-alone :
      (content : Bytes) (content_type : Option Text) (opts : StoreOptions) (w : World)
      → run (store_new_steps env m bucket key content content_type opts) w
        ≡ store_new env m bucket key content content_type opts w
  unfolding store_new_steps store_new record_steps warm_steps warm_cache
  store_new-alone content content_type opts =
      let squeezed = compress_stage env m opts content in
      let path = get_file_path m.config.storage.path bucket key in
      let row = λ (s : Bytes × Bool) (w : World).
        stored_row m (env.uuid w.drawn) w.now bucket key path (env.blake3 content) (env.md5 content)
          content_type opts content squeezed.0 s.0 squeezed.1 s.1 in
      alone-bind (call (encrypt_stage env m opts squeezed.0))
        (λ s.
          write_steps env m bucket key path s.0
          >> record_steps env m bucket key content content_type opts s.0 s.1)
        (encrypt_stage env m opts squeezed.0) _ (λ w. refl)
        (λ s.
          alone-bind (write_steps env m bucket key path s.0)
            (λ u. record_steps env m bucket key content content_type opts s.0 s.1)
            (write_bytes env m bucket key path s.0) _ (write-alone path s.0)
            (λ u w.
              alone-bind (save_steps env m bucket key path (row s w))
                (λ v. warm_steps env m bucket key (row s w) s.0 >> pure (row s w))
                (save_or_cleanup env m bucket key path (row s w))
                (λ v.
                  Actions.◌>>◌ (warm_cache env m bucket key (row s w) s.0) (Actions.pure (row s w)))
                (save-alone path (row s w)) (λ v x. refl) (record w { drawn = suc w.drawn })))

  store_or_reuse-alone :
      (content : Bytes) (content_type : Option Text) (opts : StoreOptions) (o : Option StoredFile)
      (w : World)
      → run (store_or_reuse_steps env m bucket key content content_type opts o) w
        ≡ store_or_reuse env m bucket key content content_type opts o w
  unfolding store_or_reuse_steps store_or_reuse
  store_or_reuse-alone content content_type opts none w =
      store_new-alone content content_type opts w
  store_or_reuse-alone content content_type opts (some existing) w =
      reuse-alone content content_type opts existing w

  pub store-alone :
      (content : Bytes) (content_type : Option Text) (opts : StoreOptions) (w : World)
      → run (store_steps env m bucket key content content_type opts) w
        ≡ store_file env m bucket key content content_type opts w
  unfolding store_steps store_file
  store-alone content content_type opts =
      alone-bind (ensure_steps env m.config.storage.path bucket) _
        (ensure_bucket_exists env m.config.storage.path bucket) _
        (ensure-alone env m.config.storage.path bucket)
        (λ u.
          alone-bind (call (find_duplicate env m bucket key (env.blake3 content)))
            (store_or_reuse_steps env m bucket key content content_type opts)
            (find_duplicate env m bucket key (env.blake3 content)) _ (λ w. refl)
            (store_or_reuse-alone content content_type opts))
