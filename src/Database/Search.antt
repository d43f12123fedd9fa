-- ===== src/Database/Search.antt =====
-- The remaining statements of local-storage/src/database.rs: searching, the most popular files, the
-- totals, and the two on buckets that the storage layer does not call. ILIKE and how
-- the database prints metadata are parameters; the average of the ratios is left out.
use rust_local_storage_cdn.Prelude.{
  ℕ, Text, str, text_eq, Bool, false, ◌&&◌, ◌||◌, not, Option, none, some, List, [], ◌∷◌, ◌++◌,
  filter, length, take, ltb, leb, ◌==◌, if◌then◌else◌, ℤ, unwrap_or,
}
use rust_local_storage_cdn.Errors.{StorageError}
use rust_local_storage_cdn.Models.{StoredFile}
use rust_local_storage_cdn.World.{Env, select_files, delete_bucket_files}
use rust_local_storage_cdn.World.Actions.{
  Action, pure, raise, lift, ◌>>=◌, ◌>>◌, gets, modify, database_call,
}
use rust_local_storage_cdn.Database.{newest_first, row_count, as_i64, total_size}

-- PostgreSQL's ILIKE, and a JSON document as text
pub record Folding : Type 0 where
  pub ilike : (pattern text : Text) → Bool
  pub json_text : Text → Text

-- A missing text matches nothing.
abbrev ilike_json : Folding → Text → Option Text → Bool
ilike_json f pattern none = false
ilike_json f pattern (some metadata) = f.ilike pattern (f.json_text metadata)

unfoldable pub matches : Folding → (bucket query : Text) → StoredFile → Bool
matches f bucket query row =
    let pattern = str "%" ++ (query ++ str "%") in
    (text_eq bucket [] || text_eq row.bucket bucket)
    && (f.ilike pattern row.key
        || (f.ilike pattern row.filename
            || (f.ilike pattern row.content_type || ilike_json f pattern row.metadata)))

-- ORDER BY access_count DESC, COALESCE(last_accessed, the epoch) DESC
abbrev more_popular : StoredFile → StoredFile → Bool
more_popular a b =
    if a.access_count == b.access_count
    then leb (unwrap_or b.last_accessed 0) (unwrap_or a.last_accessed 0)
    else ltb b.access_count a.access_count

insert_popular : StoredFile → List StoredFile → List StoredFile
insert_popular file [] = file ∷ []
insert_popular file (row ∷ rows) =
    let later = row ∷ insert_popular file rows in
    if more_popular file row then file ∷ row ∷ rows else later

unfoldable pub popular_first : List StoredFile → List StoredFile
unfolding insert_popular
popular_first [] = []
popular_first (row ∷ rows) = insert_popular row (popular_first rows)

module _ (env : Env) where
  unfoldable pub search_files :
      Folding → (bucket query : Text) (limit : ℤ) → Action (List StoredFile)
  search_files f bucket query limit = do
    database_call env select_files
    n ← lift (row_count (str "LIMIT") limit)
    gets (λ w. take n (newest_first (filter (matches f bucket query) w.files)))

  unfoldable pub get_popular_files : (limit : ℤ) → Action (List StoredFile)
  get_popular_files limit = do
    database_call env select_files
    n ← lift (row_count (str "LIMIT") limit)
    gets (λ w. take n (popular_first w.files))

  -- The counts of `get_total_stats`: files, bytes, compressed and encrypted files.
  unfoldable pub get_total_counts : Action (ℕ × ℕ × ℕ × ℕ)
  get_total_counts = do
    database_call env select_files
    gets (λ w. (
      length w.files,
      as_i64 (total_size env w.files),
      length (filter (λ f. unwrap_or f.is_compressed false) w.files),
      length (filter (λ f. unwrap_or f.is_encrypted false) w.files),
    ))

  unfoldable pub bucket_exists : Text → Action Bool
  bucket_exists bucket = do
    database_call env select_files
    gets (λ w. ltb 0 (length (filter (λ row. text_eq row.bucket bucket) w.files)))

  unfoldable pub delete_bucket : Text → Action (Unit {0})
  delete_bucket bucket = do
    database_call env (delete_bucket_files bucket)
    rows ← gets (λ w. filter (λ row. text_eq row.bucket bucket) w.files)
    modify (λ w. record w { files = filter (λ row. not (text_eq row.bucket bucket)) w.files })
    if length rows == 0 then raise (StorageError.invalid_bucket bucket) else pure tt
