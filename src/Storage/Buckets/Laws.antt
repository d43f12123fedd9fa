-- ===== src/Storage/Buckets/Laws.antt =====
-- Deleting a bucket: all of its rows go and no other, or nothing at all changes.
use rust_local_storage_cdn.Prelude.{
  ℕ, ◌⊎◌, inl, inr, Option-cases, Result-cases, ap, Text, text_eq, text_eq_iff, not, none, List, [],
  ◌∷◌, filter, if◌then◌else◌, ok, err, ◌≡◌, ◌∙◌, refl, arith,
}
use rust_local_storage_cdn.Errors.{StorageError, StorageResult}
use rust_local_storage_cdn.Models.{StoredFile}
use rust_local_storage_cdn.World.{World, Env, BucketRow, select_bucket_files}
use rust_local_storage_cdn.World.Actions.{database_error}
use rust_local_storage_cdn.Database.{lookup}
use rust_local_storage_cdn.Cache.{invalidate_file}
use rust_local_storage_cdn.Storage.Paths.{path_join}
use rust_local_storage_cdn.Storage.Disk.{unlink, remove_tree}
use rust_local_storage_cdn.Storage.Remove.{release}
use rust_local_storage_cdn.Storage.Buckets.{
  delete_bucket, delete_bucket_rows, cascade, release_all, references, has_name,
}

pub lookup-filter_bucket :
    (bucket b k : Text) (rows : List StoredFile)
    → lookup b k (filter (λ (row : StoredFile). not (text_eq row.bucket bucket)) rows)
      ≡ (if text_eq bucket b then none else lookup b k rows)
unfolding lookup
lookup-filter_bucket bucket b k [] = ground arith
lookup-filter_bucket bucket b k (row ∷ rows) = ground (
  arith,
  lookup-filter_bucket bucket b k rows,
  text_eq_iff bucket b,
  text_eq_iff row.bucket bucket,
  text_eq_iff row.bucket b,
)

module _ (env : Env) (base bucket : Text) where
  release-eq_ok :
      (path : Text) (n : ℕ) (w : World)
      → ((release env path n w).0 ≡ ok tt)
        × ((release env path n w).1.files ≡ w.files)
        × ((release env path n w).1.buckets ≡ w.buckets)
  unfolding release unlink
  release-eq_ok path n w = ground arith

  invalidate-files :
      (key : Text) (w : World)
      → ((invalidate_file env bucket key w).1.files ≡ w.files)
        × ((invalidate_file env bucket key w).1.buckets ≡ w.buckets)
  unfolding invalidate_file
  invalidate-files key w = ground arith

  release_all-eq_ok :
      (rows : List StoredFile) (w : World)
      → ((release_all env base bucket rows w).0 ≡ ok tt)
        × ((release_all env base bucket rows w).1.files ≡ w.files)
        × ((release_all env base bucket rows w).1.buckets ≡ w.buckets)
  unfolding release_all
  release_all-eq_ok [] w = (refl, refl, refl)
  release_all-eq_ok (file ∷ rows) w =
      let released = release env file.file_path (references env file.file_path w.files) w in
      let (done, kept, kept_buckets) =
        release-eq_ok file.file_path (references env file.file_path w.files) w in
      let (ended, same, same_buckets) =
        release_all-eq_ok rows (invalidate_file env bucket file.key released.1).1 in
      let (files, buckets) = invalidate-files file.key released.1 in
      (
        rw done ended,
        rw done (same ∙ files ∙ kept),
        rw done (same_buckets ∙ buckets ∙ kept_buckets),
      )

  abbrev outside : List StoredFile → List StoredFile
  outside rows = filter (λ (row : StoredFile). not (text_eq row.bucket bucket)) rows

  abbrev others : List BucketRow → List BucketRow
  others rows = filter (λ (row : BucketRow). not (has_name bucket row)) rows

  -- The transaction on the two tables: rolled back, or committed.
  delete_bucket_rows-err :
      (w : World) (e : StorageError)
      → (delete_bucket_rows env base bucket w).0 ≡ err e
      → (delete_bucket_rows env base bucket w).1 ≡ w
  unfolding delete_bucket_rows cascade
  delete_bucket_rows-err w e h = ground arith

  delete_bucket_rows-ok :
      (w : World)
      → (delete_bucket_rows env base bucket w).0 ≡ ok tt
      → ((delete_bucket_rows env base bucket w).1.files ≡ outside w.files)
        × ((delete_bucket_rows env base bucket w).1.buckets ≡ others w.buckets)
  unfolding delete_bucket_rows cascade
  delete_bucket_rows-ok w h = ground arith

  remove_tree-files :
      (dir : Text) (w : World)
      → ((remove_tree env dir w).1.files ≡ w.files)
        × ((remove_tree env dir w).1.buckets ≡ w.buckets)
  unfolding remove_tree
  remove_tree-files dir w = ground arith

  -- How a bucket deletion can end: without a change, or with the bucket's rows gone.
  pub delete_bucket_cases :
      (w : World)
      → ((e : StorageError) × (delete_bucket env base bucket w ≡ (err e, w)))
        ⊎ (((delete_bucket env base bucket w).0 ≡ ok tt)
            × ((delete_bucket env base bucket w).1.files ≡ outside w.files)
            × ((delete_bucket env base bucket w).1.buckets ≡ others w.buckets))
  unfolding delete_bucket
  delete_bucket_cases w = elim (Option-cases (env.fails (select_bucket_files bucket))) [
    | inl fine ↦ elim (Result-cases (delete_bucket_rows env base bucket w).0) [
      | inl (u, done) ↦
          let rows = filter (λ (row : StoredFile). text_eq row.bucket bucket) w.files in
          let w1 = (delete_bucket_rows env base bucket w).1 in
          let (ended, same, same_buckets) = release_all-eq_ok rows w1 in
          let (left, left_buckets) = delete_bucket_rows-ok w done in
          let (kept, kept_buckets) =
            remove_tree-files (path_join base bucket) (release_all env base bucket rows w1).1 in
          inr (
            rw (fine, done, ended),
            rw (fine, done, ended) (kept ∙ same ∙ left),
            rw (fine, done, ended) (kept_buckets ∙ same_buckets ∙ left_buckets),
          )
      | inr (e, failed) ↦ inl (e, rw (fine, failed, delete_bucket_rows-err w e failed))
    ]
    | inr (f, broken) ↦ inl (database_error f, rw broken)
  ]

  -- A bucket deletion that fails has changed nothing.
  pub delete_bucket-err :
      (w : World) (e : StorageError)
      → (delete_bucket env base bucket w).0 ≡ err e
      → (delete_bucket env base bucket w).1 ≡ w
  delete_bucket-err w e h = elim (delete_bucket_cases w) [
    | inl (e', same) ↦ ap (λ (r : StorageResult (Unit {0}) × World). r.1) same
    | inr (done, gone, closed) ↦ ground (arith, h, done)
  ]

  -- A bucket deletion that succeeds has removed every row of the bucket and no row of another.
  pub delete_bucket-lookup :
      (w : World) (b k : Text)
      → (delete_bucket env base bucket w).0 ≡ ok tt
      → lookup b k (delete_bucket env base bucket w).1.files
        ≡ (if text_eq bucket b then none else lookup b k w.files)
  delete_bucket-lookup w b k h = elim (delete_bucket_cases w) [
    | inl (e', same) ↦ ground (arith, h, same)
    | inr (done, gone, closed) ↦ rw gone (lookup-filter_bucket bucket b k w.files)
  ]
