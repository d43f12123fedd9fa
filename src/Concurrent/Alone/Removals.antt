-- ===== src/Concurrent/Alone/Removals.antt =====
-- A request alone that removes a file, or creates or removes a bucket.
use rust_local_storage_cdn.Prelude.{
  Text, List, [], ◌∷◌, ◌≡◌, refl, arith, Option-cases, inl, inr, ℕ, filter, text_eq,
}
use rust_local_storage_cdn.Models.{StoredFile}
use rust_local_storage_cdn.World.{World, Env, select_bucket_files}
use rust_local_storage_cdn.World.Actions
use rust_local_storage_cdn.World.Actions.{Action, continue}
use rust_local_storage_cdn.Cache.{invalidate_file}
use rust_local_storage_cdn.Storage.Paths.{path_join}
use rust_local_storage_cdn.Storage.Disk.{remove_tree}
use rust_local_storage_cdn.Storage.Remove.{delete_file, delete_row, release}
use rust_local_storage_cdn.Storage.Buckets.{
  create_bucket, ensure_bucket_exists, delete_bucket, delete_bucket_rows, release_all, references,
}
use rust_local_storage_cdn.Concurrent.Processes.{call, ignore, ◌>>◌, run, alone-bind}
use rust_local_storage_cdn.Concurrent.Steps.{
  find_row, count_others, remove_row, has_bucket, add_bucket, files_of, delete_row_steps,
  release_steps, delete_steps, create_steps, ensure_steps, release_all_steps, drop_steps,
}

module _ (env : Env) where
  delete_row-alone :
      (bucket key : Text) (w : World)
      → run (delete_row_steps env bucket key) w ≡ delete_row env bucket key w
  unfolding delete_row_steps delete_row find_row count_others remove_row
  delete_row-alone bucket key w = ground arith

  release-alone :
      (path : Text) (others : ℕ) (w : World)
      → run (release_steps env path others) w ≡ release env path others w
  unfolding release_steps release
  release-alone path others w = ground arith

  pub delete-alone :
      (bucket key : Text) (w : World)
      → run (delete_steps env bucket key) w ≡ delete_file env bucket key w
  unfolding delete_steps delete_file
  delete-alone bucket key =
      alone-bind (delete_row_steps env bucket key) _ (delete_row env bucket key) _
        (delete_row-alone bucket key)
        (λ a.
          alone-bind (release_steps env a.0 a.1) _ (release env a.0 a.1) _ (release-alone a.0 a.1)
            (λ u w. refl))

  pub create-alone :
      (base bucket : Text) (w : World)
      → run (create_steps env base bucket) w ≡ create_bucket env base bucket w
  unfolding create_steps create_bucket add_bucket
  create-alone base bucket w = ground arith

  pub ensure-alone :
      (base bucket : Text) (w : World)
      → run (ensure_steps env base bucket) w ≡ ensure_bucket_exists env base bucket w
  unfolding ensure_steps ensure_bucket_exists has_bucket
  ensure-alone base bucket w = ground (arith, create-alone base bucket w)

  release_all-alone :
      (base bucket : Text) (files : List StoredFile) (w : World)
      → run (release_all_steps env bucket files) w ≡ release_all env base bucket files w
  unfolding release_all_steps release_all
  release_all-alone base bucket [] = λ w. refl
  release_all-alone base bucket (file ∷ rest) =
      alone-bind (call (Actions.gets (λ w. references env file.file_path w.files)))
        (λ others.
          release_steps env file.file_path others
          >> (ignore (call (invalidate_file env bucket file.key))
              >> release_all_steps env bucket rest))
        (Actions.gets (λ w. references env file.file_path w.files)) _ (λ w. refl)
        (λ others.
          alone-bind (release_steps env file.file_path others)
            (λ u.
              ignore (call (invalidate_file env bucket file.key))
              >> release_all_steps env bucket rest)
            (release env file.file_path others) _ (release-alone file.file_path others)
            (λ u.
              alone-bind (ignore (call (invalidate_file env bucket file.key)))
                (λ v. release_all_steps env bucket rest)
                (Actions.ignore (invalidate_file env bucket file.key)) _ (λ w. refl)
                (λ v. release_all-alone base bucket rest)))

module _ (env : Env) where
  dropped-alone :
      (base bucket : Text) (files : List StoredFile) (w : World)
      → run
          (call (delete_bucket_rows env base bucket)
            >> (release_all_steps env bucket files
                >> ignore (call (remove_tree env (path_join base bucket)))))
          w
        ≡ Actions.◌>>◌
            (delete_bucket_rows env base bucket)
            (Actions.◌>>◌
              (release_all env base bucket files)
              (Actions.ignore (remove_tree env (path_join base bucket))))
            w
  dropped-alone base bucket files =
      alone-bind (call (delete_bucket_rows env base bucket))
        (λ u.
          release_all_steps env bucket files
          >> ignore (call (remove_tree env (path_join base bucket))))
        (delete_bucket_rows env base bucket) _ (λ v. refl)
        (λ u.
          alone-bind (release_all_steps env bucket files)
            (λ u. ignore (call (remove_tree env (path_join base bucket))))
            (release_all env base bucket files) _ (release_all-alone env base bucket files)
            (λ u x. refl))

  pub drop-alone :
      (base bucket : Text) (w : World)
      → run (drop_steps env base bucket) w ≡ delete_bucket env base bucket w
  unfolding drop_steps delete_bucket files_of
  drop-alone base bucket w = elim (Option-cases (env.fails (select_bucket_files bucket))) [
    | inl fine ↦
        rw fine (dropped-alone base bucket (filter (λ row. text_eq row.bucket bucket) w.files) w)
    | inr (f, broken) ↦ rw broken
  ]
