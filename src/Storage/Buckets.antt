-- ===== src/Storage/Buckets.antt =====
-- The bucket operations and the listings of local-storage/src/storage.rs.
pub mod Laws
use rust_local_storage_cdn.Prelude.{
  ℕ, Text, text_eq, Bool, true, false, not, Option, none, some, List, [], ◌∷◌, ◌++◌, map, filter,
  any, length, if◌then◌else◌, ℤ, pos, unwrap_or,
}
use rust_local_storage_cdn.Errors.{StorageError}
use rust_local_storage_cdn.Models.{StoredFile, FileInfo, file_info}
use rust_local_storage_cdn.World.{
  Env, BucketRow, select_bucket, insert_bucket, delete_bucket_row, select_bucket_files, create_dir,
  count_references, begin_transaction, commit_transaction,
}
use rust_local_storage_cdn.World.Actions.{
  Action, pure, raise, ◌>>=◌, ◌>>◌, gets, modify, ignore, database_call, io_call,
}
use rust_local_storage_cdn.Database.{list_files, get_bucket_stats}
use rust_local_storage_cdn.Cache.{invalidate_file}
use rust_local_storage_cdn.Storage.Paths.{path_join}
use rust_local_storage_cdn.Storage.Disk.{remove_tree}
use rust_local_storage_cdn.Storage.Remove.{release}

abbrev pub has_name : Text → BucketRow → Bool
has_name name row = text_eq row.name name

-- ON CONFLICT (name) DO NOTHING
unfoldable pub insert_bucket_row : Text → ℕ → List BucketRow → List BucketRow
insert_bucket_row name now rows =
    if any (has_name name) rows
    then rows
    else rows ++ record { name = name; created_at = now; is_active = true } ∷ []

-- COUNT(*) FROM files WHERE file_path = $1, which counts as 0 if it fails
unfoldable pub references : Env → Text → List StoredFile → ℕ
references env path rows = elim (env.fails (count_references path)) [
  | none ↦ length (filter (λ row. text_eq row.file_path path) rows)
  | some f ↦ 0
]

module _ (env : Env) (base : Text) where
  unfoldable pub create_bucket : Text → Action (Unit {0})
  create_bucket bucket = do
    io_call env (create_dir (path_join base bucket))
    database_call env (insert_bucket bucket)
    modify (λ w. record w { buckets = insert_bucket_row bucket w.now w.buckets })

  unfoldable pub ensure_bucket_exists : Text → Action (Unit {0})
  ensure_bucket_exists bucket = do
    database_call env (select_bucket bucket)
    exists ← gets (λ w. any (has_name bucket) w.buckets)
    if not exists then create_bucket bucket else pure tt

  -- ON DELETE CASCADE on `files`; without the bucket's row the transaction is rolled back.
  unfoldable pub cascade : Text → Bool → Action (Unit {0})
  cascade bucket false = raise (StorageError.invalid_bucket bucket)
  cascade bucket true = do
    database_call env commit_transaction
    modify (λ w. record w {
      buckets = filter (λ row. not (has_name bucket row)) w.buckets;
      files = filter (λ row. not (text_eq row.bucket bucket)) w.files;
    })

  -- DELETE FROM buckets WHERE name = $1
  unfoldable pub delete_bucket_rows : Text → Action (Unit {0})
  delete_bucket_rows bucket = do
    database_call env begin_transaction
    database_call env (delete_bucket_row bucket)
    exists ← gets (λ w. any (has_name bucket) w.buckets)
    cascade bucket exists

  -- The loop over the deleted rows.
  unfoldable pub release_all : Text → List StoredFile → Action (Unit {0})
  release_all bucket [] = pure tt
  release_all bucket (file ∷ rest) = do
    others ← gets (λ w. references env file.file_path w.files)
    release env file.file_path others
    ignore (invalidate_file env bucket file.key)
    release_all bucket rest

  unfoldable pub delete_bucket : Text → Action (Unit {0})
  delete_bucket bucket = do
    database_call env (select_bucket_files bucket)
    files ← gets (λ w. filter (λ row. text_eq row.bucket bucket) w.files)
    delete_bucket_rows bucket
    release_all bucket files
    ignore (remove_tree env (path_join base bucket))

-- `StorageManager::list_files`
unfoldable pub list_file_infos :
    Env → Text → Option Text → (limit offset : Option ℤ) → Action (List FileInfo)
list_file_infos env bucket prefix limit offset = do
  files ← list_files env bucket prefix (unwrap_or limit (pos 100)) (unwrap_or offset (pos 0))
  pure (map file_info files)

-- The f32 sum and quotient of the stats are not modelled: the ratios are passed on as a list.
unfoldable pub bucket_counts : Env → Text → Action (ℕ × ℕ × ℕ × ℕ)
bucket_counts env bucket = do
  (file_count, total_size) ← get_bucket_stats env bucket
  files ← list_files env bucket none (pos 1000) (pos 0)
  pure (
    file_count,
    total_size,
    length (filter (λ f. unwrap_or f.is_compressed Bool.false) files),
    length (filter (λ f. unwrap_or f.is_encrypted Bool.false) files),
  )
