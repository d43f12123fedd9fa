-- ===== src/Concurrent/Removals.antt =====
-- The steps of removing a file, and of creating and removing a bucket, and the abstract store.
use rust_local_storage_cdn.Prelude.{
  if◌then◌else◌, ℕ, Text, Bool, true, false, none, List, [], ◌∷◌, ◌==◌, not, Bool-cases,
  Option-cases, inl, inr, refl, arith, any,
}
use rust_local_storage_cdn.Models.{StoredFile}
use rust_local_storage_cdn.World.{
  Env, delete_file_row, commit_transaction, begin_transaction, delete_bucket_row, create_dir,
}
use rust_local_storage_cdn.Database.Laws.{without-IsUnique}
use rust_local_storage_cdn.Cache.{invalidate_file}
use rust_local_storage_cdn.Storage.Disk.{unlink, remove_tree}
use rust_local_storage_cdn.Storage.Paths.{path_join}
use rust_local_storage_cdn.Storage.Buckets.{delete_bucket_rows, cascade, has_name, references}
use rust_local_storage_cdn.World.Actions.{gets, io_call}
use rust_local_storage_cdn.Machine.{Contents, set, set_bucket}
use rust_local_storage_cdn.Machine.Tables.{filter-IsUnique}
use rust_local_storage_cdn.Machine.Refinement.{removed, emptied}
use rust_local_storage_cdn.Concurrent.Processes.{pure, call, ◌>>=◌, ◌>>◌, ignore}
use rust_local_storage_cdn.Concurrent.Steps.{
  find_row, count_others, remove_row, has_bucket, add_bucket, files_of, delete_row_steps,
  release_steps, delete_steps, create_steps, ensure_steps, release_all_steps, drop_steps,
}
use rust_local_storage_cdn.Concurrent.Follows.{
  Follows, Exact, Kept, Sure, bind-Follows, call-Kept, gets-Sure, kept_first, sure_first,
  ignore-Sure, sure-Exact,
}

module _ (env : Env) (bucket key : Text) where
  remove_row-Exact : Follows Exact (set bucket key none) false (call (remove_row env bucket key))
  unfolding remove_row
  remove_row-Exact w u = elim (Option-cases (env.fails (delete_file_row bucket key))) [
    | inr (f, broken) ↦ rw broken (u, inl (refl, refl))
    | inl fine ↦ elim (Option-cases (env.fails commit_transaction)) [
      | inr (f, broken) ↦ rw (fine, broken) (u, inl (refl, refl))
      | inl done ↦
          rw (fine, done)
            (without-IsUnique bucket key w.files u, inr (refl, removed bucket key w _ refl, refl))
    ]
  ]

  delete_row-Exact : Follows Exact (set bucket key none) false (delete_row_steps env bucket key)
  unfolding delete_row_steps find_row count_others
  delete_row-Exact =
      let gone = set bucket key none in
      kept_first gone Exact false (call (find_row env bucket key))
        (λ file. call (count_others env bucket key file.file_path) >>= λ others.
          call (remove_row env bucket key) >> pure (file.file_path, others))
        (call-Kept gone false (find_row env bucket key) (λ w. ground arith))
        (λ file.
          kept_first gone Exact false (call (count_others env bucket key file.file_path))
            (λ others. call (remove_row env bucket key) >> pure (file.file_path, others))
            (call-Kept gone false (count_others env bucket key file.file_path) (λ w. ground arith))
            (λ others.
              bind-Follows gone Exact Exact false (call (remove_row env bucket key))
                (λ u. pure (file.file_path, others)) (λ b a made. made) (λ b e made. made)
                remove_row-Exact)
            (λ e. refl))
        (λ e. refl)

module _ (env : Env) (change : Contents → Contents) (made : Bool) where
  release-Sure :
      (path : Text) (others : ℕ) → Follows (Sure made) change made (release_steps env path others)
  unfolding release_steps unlink
  release-Sure path others = elim (Bool-cases (others == 0)) [
    | inl last ↦ rw last (
        ignore-Sure change made (call (unlink env path))
          (call-Kept change made (unlink env path) (λ w. ground arith)))
    | inr more ↦ rw more refl
  ]

  invalidate-Sure :
      (bucket key : Text)
      → Follows (Sure made) change made (ignore (call (invalidate_file env bucket key)))
  unfolding invalidate_file
  invalidate-Sure bucket key =
      ignore-Sure change made (call (invalidate_file env bucket key))
        (call-Kept change made (invalidate_file env bucket key) (λ w. ground arith))

  release_all-Sure :
      (bucket : Text) (files : List StoredFile)
      → Follows (Sure made) change made (release_all_steps env bucket files)
  unfolding release_all_steps
  release_all-Sure bucket [] = refl
  release_all-Sure bucket (file ∷ rest) =
      sure_first change (Sure made) made (call (gets (λ w. references env file.file_path w.files)))
        (λ others.
          release_steps env file.file_path others
          >> (ignore (call (invalidate_file env bucket file.key))
              >> release_all_steps env bucket rest))
        (gets-Sure change made (λ w. references env file.file_path w.files))
        (λ others.
          sure_first change (Sure made) made (release_steps env file.file_path others)
            (λ u.
              ignore (call (invalidate_file env bucket file.key))
              >> release_all_steps env bucket rest)
            (release-Sure file.file_path others)
            (λ u.
              sure_first change (Sure made) made
                (ignore (call (invalidate_file env bucket file.key)))
                (λ v. release_all_steps env bucket rest) (invalidate-Sure bucket file.key)
                (λ v. release_all-Sure bucket rest)))

  pub create-Kept :
      (base bucket : Text) → Follows (Kept made) change made (create_steps env base bucket)
  unfolding create_steps add_bucket
  create-Kept base bucket =
      kept_first change (Kept made) made (call (io_call env (create_dir (path_join base bucket))))
        (λ u. call (add_bucket env bucket))
        (call-Kept change made (io_call env (create_dir (path_join base bucket)))
          (λ w. ground arith))
        (λ u. call-Kept change made (add_bucket env bucket) (λ w. ground arith)) (λ e. refl)

  pub ensure-Kept :
      (base bucket : Text) → Follows (Kept made) change made (ensure_steps env base bucket)
  unfolding ensure_steps has_bucket
  ensure-Kept base bucket =
      kept_first change (Kept made) made (call (has_bucket env bucket))
        (λ exists. if not exists then create_steps env base bucket else pure tt)
        (call-Kept change made (has_bucket env bucket) (λ w. ground arith))
        (λ exists. created_if exists) (λ e. refl)
    where
      created_if :
          (exists : Bool)
          → Follows
              (Kept made)
              change
              made
              (if not exists then create_steps env base bucket else pure tt)
      created_if true = refl
      created_if false = create-Kept base bucket

-- The steps of a removal: its commit removes the key, and no other step changes what is stored.
pub delete-Exact :
    (env : Env) (bucket key : Text)
    → Follows Exact (set bucket key none) false (delete_steps env bucket key)
unfolding delete_steps
delete-Exact env bucket key =
    let gone = set bucket key none in
    bind-Follows gone Exact Exact false (delete_row_steps env bucket key)
      (λ a. release_steps env a.0 a.1 >> ignore (call (invalidate_file env bucket key)))
      (λ b a made. rw made (
        sure_first gone Exact true (release_steps env a.0 a.1)
          (λ u. ignore (call (invalidate_file env bucket key))) (release-Sure env gone true a.0 a.1)
          (λ u.
            sure-Exact gone true (ignore (call (invalidate_file env bucket key)))
              (invalidate-Sure env gone true bucket key))))
      (λ b e made. made) (delete_row-Exact env bucket key)

module _ (env : Env) (base bucket : Text) where
  cascade-Exact :
      Follows Exact (set_bucket bucket) false (call (delete_bucket_rows env base bucket))
  unfolding delete_bucket_rows cascade
  cascade-Exact w u = elim (Option-cases (env.fails begin_transaction)) [
    | inr (f, broken) ↦ rw broken (u, inl (refl, refl))
    | inl begun ↦ elim (Option-cases (env.fails (delete_bucket_row bucket))) [
      | inr (f, broken) ↦ rw (begun, broken) (u, inl (refl, refl))
      | inl deleted ↦ elim (Bool-cases (any (has_name bucket) w.buckets)) [
        | inr absent ↦ rw (begun, deleted, absent) (u, inl (refl, refl))
        | inl there ↦ elim (Option-cases (env.fails commit_transaction)) [
          | inr (f, broken) ↦ rw (begun, deleted, there, broken) (u, inl (refl, refl))
          | inl done ↦
              rw (begun, deleted, there, done)
                (filter-IsUnique bucket w.files u, inr (refl, emptied bucket w _ refl, refl))
        ]
      ]
    ]
  ]

  pub drop-Exact : Follows Exact (set_bucket bucket) false (drop_steps env base bucket)
  unfolding drop_steps files_of remove_tree
  drop-Exact =
      let gone = set_bucket bucket in
      let tree = ignore (call (remove_tree env (path_join base bucket))) in
      kept_first gone Exact false (call (files_of env bucket))
        (λ files.
          call (delete_bucket_rows env base bucket) >> (release_all_steps env bucket files >> tree))
        (call-Kept gone false (files_of env bucket) (λ w. ground arith))
        (λ files.
          bind-Follows gone Exact Exact false (call (delete_bucket_rows env base bucket))
            (λ u. release_all_steps env bucket files >> tree)
            (λ b u made. rw made (
              sure_first gone Exact true (release_all_steps env bucket files) (λ u. tree)
                (release_all-Sure env gone true bucket files)
                (λ u. sure-Exact gone true tree (
                  ignore-Sure gone true (call (remove_tree env (path_join base bucket))) (
                    call-Kept gone true (remove_tree env (path_join base bucket))
                      (λ w. ground arith))))))
            (λ b e made. made) cascade-Exact)
        (λ e. refl)
