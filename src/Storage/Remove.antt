-- ===== src/Storage/Remove.antt =====
-- `delete_file` and `sweep_expired_files` of local-storage/src/storage.rs.
pub mod Laws
pub mod Sweep
use rust_local_storage_cdn.Prelude.{
  ℕ, ◌+◌, Text, text_eq, ◌&&◌, not, List, [], ◌∷◌, filter, length, ◌==◌, if◌then◌else◌, ok, err,
}
use rust_local_storage_cdn.Errors.{StorageResult}
use rust_local_storage_cdn.Models.{StoredFile}
use rust_local_storage_cdn.World.{
  Env, select_file, delete_file_row, count_references, begin_transaction, commit_transaction,
}
use rust_local_storage_cdn.World.Actions.{
  Action, pure, ◌>>=◌, ◌>>◌, gets, modify, ignore, attempt, database_call,
}
use rust_local_storage_cdn.Database.{is_at, lookup, without, or_not_found, list_expired_files}
use rust_local_storage_cdn.Cache.{invalidate_file}
use rust_local_storage_cdn.Storage.Disk.{unlink}

-- COUNT(*) WHERE file_path = $1 AND NOT (bucket = $2 AND key = $3)
unfoldable pub other_references : Text → Text → Text → List StoredFile → ℕ
other_references path bucket key rows =
    length (filter (λ row. text_eq row.file_path path && not (is_at bucket key row)) rows)

module _ (env : Env) where
  -- The transaction: the row is gone when the commit has succeeded, and not before.
  unfoldable pub delete_row : Text → Text → Action (Text × ℕ)
  delete_row bucket key = do
    database_call env begin_transaction
    database_call env (select_file bucket key)
    found ← gets (λ w. lookup bucket key w.files)
    file ← or_not_found bucket key found
    database_call env (count_references file.file_path)
    others ← gets (λ w. other_references file.file_path bucket key w.files)
    database_call env (delete_file_row bucket key)
    database_call env commit_transaction
    modify (λ w. record w { files = without bucket key w.files })
    pure (file.file_path, others)

  -- The bytes go only when nothing else refers to them.
  unfoldable pub release : Text → ℕ → Action (Unit {0})
  release path others = if others == 0 then ignore (unlink env path) else pure tt

  unfoldable pub delete_file : Text → Text → Action (Unit {0})
  delete_file bucket key = do
    (path, others) ← delete_row bucket key
    release path others
    ignore (invalidate_file env bucket key)

  abbrev pub count_ok : StorageResult (Unit {0}) → ℕ → ℕ
  count_ok (ok _) n = n + 1
  count_ok (err e) n = n

  -- The loop over the expired keys; a failure is logged and the sweep goes on.
  unfoldable pub sweep_loop : List (Text × Text) → ℕ → Action ℕ
  sweep_loop [] removed = pure removed
  sweep_loop ((bucket, key) ∷ rest) removed = do
    outcome ← attempt (delete_file bucket key)
    sweep_loop rest (count_ok outcome removed)

  unfoldable pub sweep_expired_files : Action ℕ
  sweep_expired_files = do expired ← list_expired_files env; sweep_loop expired 0
