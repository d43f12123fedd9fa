-- ===== src/Cache/Preload.antt =====
-- The preloading service of local-storage/src/cache.rs, over the row of the cache_config table, and the
-- clearing of the cache. A size in GB is the count of bytes that its product and cast give, and a
-- threshold below zero is zero.
pub mod Laws
use rust_local_storage_cdn.Prelude.{
  ℕ, ◌+◌, Text, Bytes, str, text_eq, Bool, true, false, ◌&&◌, not, Option, none, some, List, [],
  ◌∷◌, ◌++◌, filter, map, take, length, ltb, leb, ◌==◌, if◌then◌else◌, ℤ, pos, negsuc, Result, ok,
  err, unwrap_or,
}
use rust_local_storage_cdn.Errors.{StorageError, StorageResult}
use rust_local_storage_cdn.Config.{CacheBackendKind}
use rust_local_storage_cdn.Models.{StoredFile}
use rust_local_storage_cdn.World.{
  World, Env, Fault, update_cache_row, select_popular, select_cache_config, reset_cache_rows,
  cache_connect, cache_clear,
}
use rust_local_storage_cdn.World.Actions.{
  Action, pure, raise, ◌>>=◌, ◌>>◌, gets, modify, attempt, check, database_call, redis_call,
}
use rust_local_storage_cdn.Storage.Disk.{read_disk}
use rust_local_storage_cdn.Cache.{set_file_content}

pub record CacheConfig : Type 0 where
  pub max_cache_size_gb : Option ℕ
  pub cache_ttl_seconds : Option ℤ
  pub preload_enabled : Option Bool
  pub min_access_count : Option ℕ

abbrev pub gigabyte : ℕ
gigabyte = 1073741824

-- access_count >= $1 AND cache_status != 'cached' AND file_size <= 10485760; a missing status is not
-- different from 'cached'.
abbrev uncached : Option Text → Bool
uncached none = false
uncached (some status) = not (text_eq status (str "cached"))

unfoldable pub is_candidate : ℕ → StoredFile → Bool
is_candidate min_access_count row =
    leb min_access_count row.access_count
    && (uncached row.cache_status && leb row.file_size 10485760)

abbrev int_ltb : ℤ → ℤ → Bool
int_ltb (pos a) (pos b) = ltb a b
int_ltb (pos a) (negsuc b) = false
int_ltb (negsuc a) (pos b) = true
int_ltb (negsuc a) (negsuc b) = ltb b a

-- ORDER BY last_accessed DESC NULLS LAST
abbrev not_older : Option ℕ → Option ℕ → Bool
not_older a none = true
not_older none (some b) = false
not_older (some a) (some b) = leb b a

abbrev by_access : StoredFile → StoredFile → Bool
by_access a b =
    if a.access_count == b.access_count
    then not_older a.last_accessed b.last_accessed
    else ltb b.access_count a.access_count

-- ORDER BY cache_priority DESC, where a missing priority comes first, and then by access
abbrev by_priority : Option ℤ → Option ℤ → Bool → Bool
by_priority none none rest = rest
by_priority none (some q) rest = true
by_priority (some p) none rest = false
by_priority (some p) (some q) rest =
    if int_ltb q p then true else if int_ltb p q then false else rest

insert_candidate : StoredFile → List StoredFile → List StoredFile
insert_candidate file [] = file ∷ []
insert_candidate file (row ∷ rows) =
    let later = row ∷ insert_candidate file rows in
    if by_priority file.cache_priority row.cache_priority (by_access file row)
    then file ∷ row ∷ rows
    else later

unfoldable pub candidates_first : List StoredFile → List StoredFile
unfolding insert_candidate
candidates_first [] = []
candidates_first (row ∷ rows) = insert_candidate row (candidates_first rows)

abbrev hits_or : Option ℕ → Option ℕ → Option ℕ
hits_or none old = old
hits_or (some n) old = some n

abbrev pub with_status : ℕ → Text → Option ℕ → ℕ → StoredFile → StoredFile
with_status id status hits now row =
    if row.id == id
    then record row {
      cache_status = some status;
      last_cache_update = some now;
      cache_hits = hits_or hits row.cache_hits;
    }
    else row

-- WHERE cache_status = 'cached'
abbrev is_cached : Option Text → Bool
is_cached none = false
is_cached (some status) = text_eq status (str "cached")

abbrev cleared : ℕ → StoredFile → StoredFile
cleared now row =
    if is_cached row.cache_status
    then record row { cache_status = some (str "not_cached"); last_cache_update = some now }
    else row

-- `exists` looks first; then the read fails or gives the bytes.
abbrev present_bytes : StoredFile → Option Bytes → Result Fault Bytes → Action Bytes
present_bytes file none outcome = raise (StorageError.not_found file.bucket file.key)
present_bytes file (some content) (ok bytes) = pure bytes
present_bytes file (some content) (err f) = raise (StorageError.io f.message)

module _ (env : Env) where
  -- `fetch_one` of the row with id 1
  unfoldable pub get_cache_config : Option CacheConfig → Action CacheConfig
  get_cache_config none =
      database_call env select_cache_config
      >> raise (
          StorageError.database
            (str "no rows returned by a query that expected to return at least one row"))
  get_cache_config (some config) = database_call env select_cache_config >> pure config

  unfoldable pub update_cache_status :
      (id : ℕ) (status : Text) (hits : Option ℕ) → Action (Unit {0})
  update_cache_status id status hits = do
    database_call env (update_cache_row id)
    modify (λ w. record w { files = map (with_status id status hits w.now) w.files })

  unfoldable pub get_popular_uncached_files :
      (min_access_count limit : ℕ) → Action (List StoredFile)
  get_popular_uncached_files min_access_count limit = do
    database_call env select_popular
    gets (λ w. take limit (candidates_first (filter (is_candidate min_access_count) w.files)))

  unfoldable pub cache_file_from_disk : StoredFile → Action ℕ
  cache_file_from_disk file = do
    there ← gets (λ w. w.disk (env.canonical file.file_path))
    outcome ← read_disk env file.file_path
    content ← present_bytes file there outcome
    set_file_content env file.bucket file.key content
    pure (length content)

  -- The loop: the bytes and the files cached so far.
  unfoldable pub preload_loop : (max : ℕ) → List StoredFile → (size count : ℕ) → Action (ℕ × ℕ)
  preload_loop max [] size count = pure (size, count)
  preload_loop max (file ∷ rest) size count = if leb max size then pure (size, count) else (do
    outcome ← attempt (cache_file_from_disk file)
    elim outcome [
      | ok n ↦
          update_cache_status file.id (str "cached") none
          >> preload_loop max rest (size + n) (count + 1)
      | err e ↦
          update_cache_status file.id (str "not_cached") none >> preload_loop max rest size count
    ])

  unfoldable pub preload_popular_files : Option CacheConfig → Action (ℕ × ℕ)
  preload_popular_files row = do
    config ← get_cache_config row
    if not (unwrap_or config.preload_enabled false) then pure (0, 0) else (do
      files ← get_popular_uncached_files (unwrap_or config.min_access_count 5) 1000
      preload_loop (unwrap_or config.max_cache_size_gb gigabyte) files 0 0)

  -- FLUSHDB has an error of its own; the in-process cache cannot fail.
  abbrev flush : CacheBackendKind → Action (Unit {0})
  flush CacheBackendKind.memory = pure tt
  flush CacheBackendKind.redis = do
    redis_call env cache_connect
    check (λ f. StorageError.cache (str "Failed to clear cache: " ++ f.message))
        (env.fails cache_clear)

  unfoldable pub clear_cache : CacheBackendKind → Action (Unit {0})
  clear_cache backend = do
    flush backend
    modify (λ w. record w { cache = λ key. none })
    database_call env reset_cache_rows
    modify (λ w. record w { files = map (cleared w.now) w.files })
