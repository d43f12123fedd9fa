-- ===== src/Machine/Refinement.antt =====
-- The storage layer does to its tables what the abstract store allows.
use rust_local_storage_cdn.Prelude.{
  true, filter, not, Result-cases, ap, ◌∙◌, Text, text_eq, text_eq_iff, ◌&&◌, Option, none, some,
  ok, err, if◌then◌else◌, ◌≡◌, ◌⊎◌, inl, inr, arith, Bytes,
}
use rust_local_storage_cdn.Errors.{StorageResult}
use rust_local_storage_cdn.Models.{StoredFile}
use rust_local_storage_cdn.World.{World, Env}
use rust_local_storage_cdn.World.Actions.{continue}
use rust_local_storage_cdn.Database.{lookup, without, is_at, upsert, overwrite, inserted}
use rust_local_storage_cdn.Database.Laws.{is_at_iff, lookup-upsert, lookup-without}
use rust_local_storage_cdn.Storage.Encode.{StorageManager, StoreOptions}
use rust_local_storage_cdn.Storage.Store.{store_file}
use rust_local_storage_cdn.Storage.Fetch.{get_file, get_file_info}
use rust_local_storage_cdn.Storage.Remove.{delete_file}
use rust_local_storage_cdn.Storage.Remove.Laws.{delete_file-lookup, delete_file-err}
use rust_local_storage_cdn.Storage.Buckets.{create_bucket, delete_bucket}
use rust_local_storage_cdn.Storage.Buckets.Laws.{delete_bucket_cases, lookup-filter_bucket}
use rust_local_storage_cdn.Machine.{
  Operation, perform, IsConsistent, Contents, contents, hash_of, set, set_bucket, Allowed,
}
use rust_local_storage_cdn.Machine.Tables.{lookup-touch, find-lookup}
use rust_local_storage_cdn.Machine.Frames.{
  MayLose, ReadTables, get_file-ReadTables, get_file_info-ReadTables,
}
use rust_local_storage_cdn.Machine.Frames.Store.{create_bucket-MayGrow}
use rust_local_storage_cdn.Machine.Frames.Saved.{StoreOutcome, store_file-StoreOutcome}

-- Two abstract stores are one when they have the same hash at every key.
pub contents_eq : (c d : Contents) → ((b k : Text) → c b k ≡ d b k) → c ≡ d
contents_eq c d h = λ i b k. h b k i

module _ (w w' : World) where
  pub same_files : w'.files ≡ w.files → contents w' ≡ contents w
  unfolding contents
  same_files f = contents_eq _ _ (λ b k. rw f)

module _ (bucket key : Text) (w w' : World) where
  pub removed :
      w'.files ≡ without bucket key w.files → contents w' ≡ set bucket key none (contents w)
  unfolding contents
  removed f = contents_eq _ _ (λ b k. rw f (ground (arith, lookup-without bucket key b k w.files)))

  lost :
      MayLose bucket key w w'
      → (contents w' ≡ contents w) ⊎ (contents w' ≡ set bucket key none (contents w))
  lost (inl f, b) = inl (same_files w w' f)
  lost (inr f, b) = inr (removed f)

  pub kept :
      (a : Unit {0}) → ReadTables {A = Unit {0}} bucket key w (ok a) w' → contents w' ≡ contents w
  unfolding contents
  kept a (inl f, b) = same_files w w' f
  kept a (inr (id, now, f), b) = contents_eq _ _ (λ b k. rw f ((lookup-touch b k id now w.files).1))

  pub saved :
      (file : StoredFile)
      → file.bucket ≡ bucket
      → file.key ≡ key
      → w'.files ≡ upsert file w.files
      → contents w' ≡ set bucket key (some file.hash_blake3) (contents w)
  unfolding contents overwrite inserted
  saved file at_bucket at_key f = contents_eq _ _ (λ b k. rw f (
      ground (
        arith,
        lookup-upsert b k file w.files,
        is_at_iff b k file,
        text_eq_iff bucket b,
        text_eq_iff key k,
      )))

  pub found :
      (file : StoredFile)
      → is_at bucket key file ≡ true
      → lookup file.bucket file.key w.files ≡ some file
      → w'.files ≡ w.files
      → contents w' ≡ set bucket key (some file.hash_blake3) (contents w)
  unfolding contents
  found file here there f = contents_eq _ _ (λ b k.
      rw f (ground (arith, is_at_iff bucket key file, text_eq_iff bucket b, text_eq_iff key k)))

pub emptied :
    (bucket : Text) (w w' : World)
    → w'.files ≡ filter (λ row. not (text_eq row.bucket bucket)) w.files
    → contents w' ≡ set_bucket bucket (contents w)
unfolding contents
emptied bucket w w' f =
    contents_eq _ _ (λ b k. rw f (ground (arith, lookup-filter_bucket bucket b k w.files)))

-- The outcome of an operation whose value is dropped.
abbrev ended : {A : Type 0} → StorageResult A → World → StorageResult (Unit {0}) × World
ended r w = continue r (λ a v. (ok tt, v)) w

module _ (env : Env) (m : StorageManager) (bucket key : Text) (w : World) where
  store-Allowed :
      (content : Bytes) (content_type : Option Text) (opts : StoreOptions)
      (r : StorageResult StoredFile) (w' : World)
      → IsConsistent w
      → StoreOutcome env m bucket key (env.blake3 content) w r w'
      → Allowed env.blake3
          (Operation.store bucket key content content_type opts)
          (ended r w').0
          (contents w)
          (contents (ended r w').1)
  store-Allowed content content_type opts (err e) w' c (f, grown) = same_files w w' f
  store-Allowed content content_type opts (ok file) w' c
        (inl (at_bucket, at_key, has_hash, f), grown, there) =
      rw (← has_hash) (saved bucket key w w' file at_bucket at_key f)
  store-Allowed content content_type opts (ok file) w' c
        (inr (here, by_hash, f), grown, in_buckets) =
      let (there, has_hash) = find-lookup (env.blake3 content) w.files file c.0 by_hash in
      rw (← has_hash) (found bucket key w w' file here there f)

  read-Allowed :
      {A : Type 0} (r : StorageResult A) (w' : World)
      → ReadTables bucket key w r w'
      → Allowed env.blake3
          (Operation.read bucket key)
          (ended r w').0
          (contents w)
          (contents (ended r w').1)
  read-Allowed (ok a) w' step = kept bucket key w w' tt step
  read-Allowed (err e) w' step = lost bucket key w w' step

  info-Allowed :
      {A : Type 0} (r : StorageResult A) (w' : World)
      → ReadTables bucket key w r w'
      → Allowed env.blake3
          (Operation.info bucket key)
          (ended r w').0
          (contents w)
          (contents (ended r w').1)
  info-Allowed (ok a) w' step = kept bucket key w w' tt step
  info-Allowed (err e) w' step = lost bucket key w w' step

  remove-Allowed :
      Allowed env.blake3
        (Operation.remove bucket key)
        (delete_file env bucket key w).0
        (contents w)
        (contents (delete_file env bucket key w).1)
  unfolding contents
  remove-Allowed = elim (Result-cases (delete_file env bucket key w).0) [
    | inl (u, good) ↦ rw good (
        contents_eq _ _
          (λ b k. ap hash_of (delete_file-lookup env bucket key w b k good) ∙ hash_of_if b k))
    | inr (e, bad) ↦ rw (bad, delete_file-err env bucket key w e bad)
  ]
    where
      hash_of_if :
          (b k : Text)
          → hash_of (if text_eq bucket b && text_eq key k then none else lookup b k w.files)
            ≡ set bucket key none (contents w) b k
      hash_of_if b k = ground arith

  create-Allowed : (base : Text) → contents (create_bucket env base bucket w).1 ≡ contents w
  create-Allowed base =
      same_files w (create_bucket env base bucket w).1
        (create_bucket-MayGrow env m bucket key base w).0

  drop-Allowed :
      (base : Text)
      → Allowed env.blake3
          (Operation.drop bucket)
          (delete_bucket env base bucket w).0
          (contents w)
          (contents (delete_bucket env base bucket w).1)
  unfolding contents
  drop-Allowed base = elim (delete_bucket_cases env base bucket w) [
    | inl (e, same) ↦ rw same
    | inr (done, f, b) ↦ rw done (emptied bucket w (delete_bucket env base bucket w).1 f)
  ]

-- Each operation of the storage layer on consistent tables, whichever of its calls fail, is one that
-- the abstract store allows with that outcome: a store that succeeds sets its key to the hash of the
-- content, also when deduplication answers it; a removal removes its key, or all keys of its bucket;
-- and one that fails changes nothing, except that a failed read may remove its key.
pub perform-Allowed :
    (env : Env) (m : StorageManager) (op : Operation) (w : World)
    → IsConsistent w
    → Allowed env.blake3 op (perform env m op w).0 (contents w) (contents (perform env m op w).1)
unfolding perform
perform-Allowed env m (Operation.store bucket key content content_type opts) w c =
    store-Allowed env m bucket key w content content_type opts
      (store_file env m bucket key content content_type opts w).0
      (store_file env m bucket key content content_type opts w).1 c
      (store_file-StoreOutcome env m bucket key content content_type opts w)
perform-Allowed env m (Operation.read bucket key) w c =
    read-Allowed env m bucket key w (get_file env m bucket key w).0 (get_file env m bucket key w).1
      (get_file-ReadTables env m bucket key w)
perform-Allowed env m (Operation.info bucket key) w c =
    info-Allowed env m bucket key w (get_file_info env m bucket key w).0
      (get_file_info env m bucket key w).1 (get_file_info-ReadTables env m bucket key w)
perform-Allowed env m (Operation.remove bucket key) w c = remove-Allowed env m bucket key w
perform-Allowed env m (Operation.create bucket) w c =
    create-Allowed env m bucket bucket w m.config.storage.path
perform-Allowed env m (Operation.drop bucket) w c =
    drop-Allowed env m bucket bucket w m.config.storage.path
