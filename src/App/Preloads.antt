-- ===== src/App/Preloads.antt =====
-- The preloading service keeps the tables consistent.
use rust_local_storage_cdn.Prelude.{
  ℕ, ◌+◌, Text, str, false, Option, none, some, List, [], ◌∷◌, map, leb, ok, err, inl, inr,
  Bool-cases, ◌≡◌, refl, arith, if◌then◌else◌, not, unwrap_or,
}
use rust_local_storage_cdn.Errors.{StorageResult}
use rust_local_storage_cdn.Models.{StoredFile}
use rust_local_storage_cdn.World.{Env, BucketRow}
use rust_local_storage_cdn.World.Actions.{Action, pure, ◌>>=◌, ◌>>◌}
use rust_local_storage_cdn.Database.{lookup}
use rust_local_storage_cdn.Database.Laws.{IsUnique}
use rust_local_storage_cdn.Storage.Disk.{read_disk}
use rust_local_storage_cdn.Cache.{set_file_content, backend_set}
use rust_local_storage_cdn.Cache.Preload.{
  CacheConfig, gigabyte, with_status, get_cache_config, update_cache_status,
  get_popular_uncached_files, cache_file_from_disk, preload_loop, preload_popular_files,
}
use rust_local_storage_cdn.Machine.{InBuckets}
use rust_local_storage_cdn.App.Keeps.{Keeps, bind-Keeps}

module _ (id : ℕ) (status : Text) (hits : Option ℕ) (now : ℕ) where
  lookup-status :
      (b k : Text) (rows : List StoredFile)
      → lookup b k rows ≡ none
      → lookup b k (map (with_status id status hits now) rows) ≡ none
  unfolding lookup
  lookup-status b k [] h = refl
  lookup-status b k (row ∷ rows) h = ground (arith, lookup-status b k rows)

  status-IsUnique :
      (rows : List StoredFile)
      → IsUnique rows
      → IsUnique (map (with_status id status hits now) rows)
  status-IsUnique [] u = tt
  status-IsUnique (row ∷ rows) u =
      ground (arith, status-IsUnique rows, lookup-status row.bucket row.key rows)

  status-InBuckets :
      (rows : List StoredFile) (buckets : List BucketRow)
      → InBuckets rows buckets
      → InBuckets (map (with_status id status hits now) rows) buckets
  status-InBuckets [] buckets i = tt
  status-InBuckets (row ∷ rows) buckets i = ground (arith, status-InBuckets rows buckets)

module _ (env : Env) where
  status-Keeps :
      (id : ℕ) (status : Text) (hits : Option ℕ) → Keeps (update_cache_status env id status hits)
  unfolding update_cache_status
  status-Keeps id status hits w c = ground (
    arith,
    status-IsUnique id status hits w.now w.files,
    status-InBuckets id status hits w.now w.files w.buckets,
  )

  cache_file-Keeps : (file : StoredFile) → Keeps (cache_file_from_disk env file)
  unfolding cache_file_from_disk read_disk set_file_content backend_set
  cache_file-Keeps file w c = ground arith

  -- What follows a file, by whether it was cached.
  abbrev after :
      (go : (size count : ℕ) → Action (ℕ × ℕ))
      → StoredFile
      → (size count : ℕ) → StorageResult ℕ
      → Action (ℕ × ℕ)
  after go file size count outcome = elim outcome [
    | ok n ↦ update_cache_status env file.id (str "cached") none >> go (size + n) (count + 1)
    | err e ↦ update_cache_status env file.id (str "not_cached") none >> go size count
  ]

  after-Keeps :
      (go : (size count : ℕ) → Action (ℕ × ℕ)) (file : StoredFile) (size count : ℕ)
      (outcome : StorageResult ℕ)
      → ((size count : ℕ) → Keeps (go size count))
      → Keeps (after go file size count outcome)
  after-Keeps go file size count (ok n) rest =
      bind-Keeps (update_cache_status env file.id (str "cached") none)
        (λ u. go (size + n) (count + 1)) (status-Keeps file.id (str "cached") none)
        (λ u. rest (size + n) (count + 1))
  after-Keeps go file size count (err e) rest =
      bind-Keeps (update_cache_status env file.id (str "not_cached") none) (λ u. go size count)
        (status-Keeps file.id (str "not_cached") none) (λ u. rest size count)

  loop-Keeps :
      (max : ℕ) (files : List StoredFile) (size count : ℕ)
      → Keeps (preload_loop env max files size count)
  unfolding preload_loop
  loop-Keeps max [] size count w c = c
  loop-Keeps max (file ∷ rest) size count w c = elim (Bool-cases (leb max size)) [
    | inl full ↦ rw full c
    | inr room ↦ rw room (
        after-Keeps (preload_loop env max rest) file size count (cache_file_from_disk env file w).0
          (loop-Keeps max rest) (cache_file_from_disk env file w).1 (cache_file-Keeps file w c))
  ]

  popular-Keeps :
      (min_access_count limit : ℕ) → Keeps (get_popular_uncached_files env min_access_count limit)
  unfolding get_popular_uncached_files
  popular-Keeps min_access_count limit w c = ground arith

  config-Keeps : (row : Option CacheConfig) → Keeps (get_cache_config env row)
  unfolding get_cache_config
  config-Keeps none w c = ground arith
  config-Keeps (some config) w c = ground arith

  configured-Keeps :
      (config : CacheConfig)
      → Keeps (
          if not (unwrap_or config.preload_enabled false)
          then pure {A = ℕ × ℕ} (0, 0)
          else (get_popular_uncached_files env (unwrap_or config.min_access_count 5) 1000
              >>= (λ files.
                  preload_loop env (unwrap_or config.max_cache_size_gb gigabyte) files 0 0)))
  configured-Keeps config w c = elim (Bool-cases (not (unwrap_or config.preload_enabled false))) [
    | inl off ↦ rw off c
    | inr on ↦ rw on (
        bind-Keeps (get_popular_uncached_files env (unwrap_or config.min_access_count 5) 1000)
          (λ files. preload_loop env (unwrap_or config.max_cache_size_gb gigabyte) files 0 0)
          (popular-Keeps (unwrap_or config.min_access_count 5) 1000)
          (λ files. loop-Keeps (unwrap_or config.max_cache_size_gb gigabyte) files 0 0) w c)
  ]

  pub preload-Keeps : (row : Option CacheConfig) → Keeps (preload_popular_files env row)
  unfolding preload_popular_files
  preload-Keeps row = bind-Keeps (get_cache_config env row) _ (config-Keeps row) configured-Keeps
