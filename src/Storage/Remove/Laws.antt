-- ===== src/Storage/Remove/Laws.antt =====
-- Deleting one file: what it removes, what it leaves to the other rows, and that a failure leaves
-- everything.
use rust_local_storage_cdn.Prelude.{
  Text, text_eq, text_eq_iff, ◌&&◌, none, some, List, [], ◌∷◌, if◌then◌else◌, ok, err, Option-cases,
  inl, inr, ◌≡◌, ◌≢◌, arith,
}
use rust_local_storage_cdn.Errors.{StorageError}
use rust_local_storage_cdn.Models.{StoredFile}
use rust_local_storage_cdn.World.{World, Env}
use rust_local_storage_cdn.Database.{lookup, without}
use rust_local_storage_cdn.Database.Laws.{lookup-without}
use rust_local_storage_cdn.Cache.{invalidate_file}
use rust_local_storage_cdn.Storage.Disk.{unlink}
use rust_local_storage_cdn.Storage.Remove.{other_references, delete_row, release, delete_file}

-- With no other reference to a path, no row that stays is at that path.
lookup-without-ne_path :
    (path bucket key b k : Text) (rows : List StoredFile) (r : StoredFile)
    → other_references path bucket key rows ≡ 0
    → lookup b k (without bucket key rows) ≡ some r
    → r.file_path ≢ path
unfolding other_references lookup without
lookup-without-ne_path path bucket key b k [] r h e = cc
lookup-without-ne_path path bucket key b k (row ∷ rows) r h e =
    ground
      (arith, lookup-without-ne_path path bucket key b k rows r, text_eq_iff row.file_path path)

module _ (env : Env) (bucket key : Text) (w : World) where
  -- A deletion that fails has changed nothing.
  pub delete_file-err :
      (e : StorageError)
      → (delete_file env bucket key w).0 ≡ err e
      → (delete_file env bucket key w).1 ≡ w
  unfolding delete_file delete_row release
  delete_file-err e h = ground arith

  -- After a deletion that succeeds its key is absent, and what every other key shows is unchanged.
  pub delete_file-lookup :
      (b k : Text)
      → (delete_file env bucket key w).0 ≡ ok tt
      → lookup b k (delete_file env bucket key w).1.files
        ≡ (if text_eq bucket b && text_eq key k then none else lookup b k w.files)
  unfolding delete_file delete_row release unlink invalidate_file
  delete_file-lookup b k h = ground (arith, lookup-without bucket key b k w.files)

  bytes_of_remaining :
      (b k : Text) (r found : StoredFile)
      → lookup bucket key w.files ≡ some found
      → lookup b k (delete_file env bucket key w).1.files ≡ some r
      → (env.canonical found.file_path ≡ env.canonical r.file_path → found.file_path ≡ r.file_path)
      → (delete_file env bucket key w).1.disk (env.canonical r.file_path)
        ≡ w.disk (env.canonical r.file_path)
  unfolding delete_file delete_row release unlink invalidate_file
  bytes_of_remaining b k r found h e one = ground (
    arith,
    lookup-without-ne_path found.file_path bucket key b k w.files r,
    text_eq_iff (env.canonical found.file_path) (env.canonical r.file_path),
    one,
  )

  -- Whatever the outcome, the bytes of a row that is still there are untouched, where its path is not
  -- another spelling of the path of the row that was to be deleted: a file that another row refers to
  -- by the same path is not removed from disk.
  pub delete_file-keeps_bytes :
      (b k : Text) (r : StoredFile)
      → lookup b k (delete_file env bucket key w).1.files ≡ some r
      → ((found : StoredFile)
          → lookup bucket key w.files ≡ some found
          → env.canonical found.file_path ≡ env.canonical r.file_path
          → found.file_path ≡ r.file_path)
      → (delete_file env bucket key w).1.disk (env.canonical r.file_path)
        ≡ w.disk (env.canonical r.file_path)
  delete_file-keeps_bytes b k r e one = elim (Option-cases (lookup bucket key w.files)) [
    | inl absent ↦ unfold delete_file delete_row in ground arith
    | inr (found, h) ↦ bytes_of_remaining b k r found h e (one found h)
  ]
