-- ===== src/Database.antt =====
-- local-storage/src/database.rs: the statements of `DatabaseManager` on the `files` and `buckets`
-- tables. A table is the list of its rows; what a statement without ORDER BY returns first is the
-- first row that fits.
pub mod Search
pub mod Laws
pub mod Order
use rust_local_storage_cdn.Prelude.{
  ℕ, ◌+◌, Text, str, text_eq, Bool, true, false, ◌&&◌, not, Option, none, some, List, [], ◌∷◌, ◌++◌,
  map, filter, find, length, take, drop, any, ltb, leb, ◌==◌, if◌then◌else◌, ℤ, pos, negsuc, Result,
  ok, err, unwrap_or, i64_max,
}
use rust_local_storage_cdn.Errors.{StorageError}
use rust_local_storage_cdn.Models.{StoredFile, StorageStats}
use rust_local_storage_cdn.World.{
  World, Env, Fault, BucketRow, Effect, select_file, insert_file, delete_file_row, select_by_hash,
  update_access_row, select_expired, select_files, select_buckets,
}
use rust_local_storage_cdn.World.Actions.{
  Action, pure, raise, lift, ◌>>=◌, ◌>>◌, gets, modify, check, database_call,
}

-- WHERE bucket = $1 AND key = $2
abbrev pub is_at : Text → Text → StoredFile → Bool
is_at bucket key row = text_eq row.bucket bucket && text_eq row.key key

unfoldable pub lookup : Text → Text → List StoredFile → Option StoredFile
lookup bucket key rows = find (is_at bucket key) rows

-- ON CONFLICT (bucket, key) DO UPDATE SET: every listed column is taken from the new row; `id` and
-- the cache columns, which the list leaves out, stay.
unfoldable pub overwrite : StoredFile → StoredFile → StoredFile
overwrite new old = record new {
  id = old.id;
  bucket = old.bucket;
  key = old.key;
  cache_status = old.cache_status;
  last_cache_update = old.last_cache_update;
  cache_hits = old.cache_hits;
  cache_priority = old.cache_priority;
}

-- The columns that the INSERT does not list get the table's defaults.
unfoldable pub inserted : StoredFile → StoredFile
inserted new = record new {
  cache_status = some (str "not_cached");
  last_cache_update = none;
  cache_hits = some 0;
  cache_priority = some (pos 0);
}

unfoldable pub upsert : StoredFile → List StoredFile → List StoredFile
unfolding overwrite inserted
upsert new [] = inserted new ∷ []
upsert new (row ∷ rows) =
    let rest = upsert new rows in
    if is_at new.bucket new.key row then overwrite new row ∷ rows else row ∷ rest

-- 23505 is the SQLSTATE of a unique violation.
unfoldable pub save_error : StoredFile → Fault → StorageError
save_error file f = elim f.code [
  | none ↦ StorageError.database f.message
  | some code ↦
      if text_eq code (str "23505")
      then StorageError.already_exists file.bucket file.key
      else StorageError.database f.message
]

-- DELETE FROM files WHERE bucket = $1 AND key = $2
unfoldable pub without : Text → Text → List StoredFile → List StoredFile
without bucket key rows = filter (λ row. not (is_at bucket key row)) rows

abbrev pub or_not_found : Text → Text → Option StoredFile → Action StoredFile
or_not_found bucket key none = raise (StorageError.not_found bucket key)
or_not_found bucket key (some file) = pure file

abbrev pub touch : ℕ → ℕ → StoredFile → StoredFile
touch id now row =
    if row.id == id
    then record row { last_accessed = some now; access_count = row.access_count + 1 }
    else row

-- expires_at IS NOT NULL AND expires_at < NOW()
unfoldable pub is_expired : ℕ → StoredFile → Bool
is_expired now row = elim row.expires_at [ none ↦ false | some t ↦ ltb t now ]

-- ORDER BY upload_time DESC, which has NULL first
abbrev pub not_before : (time other : Option ℕ) → Bool
not_before none other = true
not_before (some t) none = false
not_before (some t) (some u) = leb u t

abbrev pub newer : StoredFile → StoredFile → Bool
newer a b = not_before a.upload_time b.upload_time

unfoldable pub insert_newest : StoredFile → List StoredFile → List StoredFile
insert_newest file [] = file ∷ []
insert_newest file (row ∷ rows) =
    let later = row ∷ insert_newest file rows in if newer file row then file ∷ row ∷ rows else later

unfoldable pub newest_first : List StoredFile → List StoredFile
unfolding insert_newest
newest_first [] = []
newest_first (row ∷ rows) = insert_newest row (newest_first rows)

-- LIMIT and OFFSET: the database rejects a negative one.
abbrev pub row_count : Text → ℤ → Result StorageError ℕ
row_count what (pos n) = ok n
row_count what (negsuc n) = err (StorageError.database (what ++ str " must not be negative"))

-- A sum that is no i64 counts as 0.
abbrev pub as_i64 : ℕ → ℕ
as_i64 n = if leb n i64_max then n else 0

-- key LIKE $2, where there is a prefix
abbrev pub has_prefix : Env → Option Text → StoredFile → Bool
has_prefix env none row = true
has_prefix env (some prefix) row = env.like (prefix ++ str "%") row.key

module _ (env : Env) where
  unfoldable pub save_file : StoredFile → Action (Unit {0})
  save_file file = do
    check (save_error file) (env.fails (insert_file file.bucket file.key))
    modify (λ w. record w { files = upsert file w.files })

  unfoldable pub get_file : Text → Text → Action StoredFile
  get_file bucket key = do
    database_call env (select_file bucket key)
    found ← gets (λ w. lookup bucket key w.files)
    or_not_found bucket key found

  unfoldable pub list_expired_files : Action (List (Text × Text))
  list_expired_files = do
    database_call env select_expired
    gets (λ w. map (λ row. (row.bucket, row.key)) (filter (is_expired w.now) w.files))

  unfoldable pub get_file_by_hash : Text → Action (Option StoredFile)
  get_file_by_hash hash = do
    database_call env (select_by_hash hash)
    gets (λ w. find (λ row. text_eq row.hash_blake3 hash) w.files)

  unfoldable pub update_access : ℕ → Action (Unit {0})
  update_access id = do
    database_call env (update_access_row id)
    modify (λ w. record w { files = map (touch id w.now) w.files })

  -- `DatabaseManager::delete_file`, which the storage layer does not call.
  unfoldable pub delete_file : Text → Text → Action (Unit {0})
  delete_file bucket key = do
    database_call env (delete_file_row bucket key)
    found ← gets (λ w. lookup bucket key w.files)
    _ ← or_not_found bucket key found
    modify (λ w. record w { files = without bucket key w.files })

  unfoldable pub list_files : Text → Option Text → (limit offset : ℤ) → Action (List StoredFile)
  list_files bucket prefix limit offset = do
    database_call env select_files
    n ← lift (row_count (str "LIMIT") limit)
    skip ← lift (row_count (str "OFFSET") offset)
    gets (λ w. take n (
        drop skip (
          newest_first
            (filter (λ row. text_eq row.bucket bucket && has_prefix env prefix row) w.files))))

  unfoldable pub list_buckets : (List Text → List Text) → Action (List Text)
  list_buckets order_by_name = do
    database_call env select_buckets
    gets (λ w.
        order_by_name
          (map (λ (b : BucketRow). b.name) (filter (λ (b : BucketRow). b.is_active) w.buckets)))

  unfoldable pub list_buckets_with_created_at :
      (List (Text × ℕ) → List (Text × ℕ)) → Action (List (Text × ℕ))
  list_buckets_with_created_at order_by_name = do
    database_call env select_buckets
    gets (λ w. order_by_name (
        map (λ (b : BucketRow). (b.name, b.created_at))
          (filter (λ (b : BucketRow). b.is_active) w.buckets)))

  -- COUNT(*) and SUM(file_size) of a bucket
  abbrev pub total_size : List StoredFile → ℕ
  total_size [] = 0
  total_size (row ∷ rows) = row.file_size + total_size rows

  unfoldable pub get_bucket_stats : Text → Action (ℕ × ℕ)
  get_bucket_stats bucket = do
    database_call env select_files
    rows ← gets (λ w. filter (λ row. text_eq row.bucket bucket) w.files)
    pure (length rows, as_i64 (total_size rows))
