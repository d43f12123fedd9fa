-- ===== src/Machine/Frames/Saved.antt =====
-- What storing a file does to the two tables, in all.
use rust_local_storage_cdn.Prelude.{
  Text, Bytes, true, Option, some, none, List, Bool-cases, any, find, text_eq, ok, err, ◌≡◌, ◌⊎◌,
  inl, inr, refl, arith, ap, sym, suc, ◌∙◌,
}
use rust_local_storage_cdn.Errors.{StorageError, StorageResult}
use rust_local_storage_cdn.Models.{StoredFile}
use rust_local_storage_cdn.World.{World, Env}
use rust_local_storage_cdn.World.Actions.{◌>>=◌, ◌>>◌, pure}
use rust_local_storage_cdn.Database.{upsert, save_file, is_at}
use rust_local_storage_cdn.Storage.Encode.{StorageManager, StoreOptions}
use rust_local_storage_cdn.Storage.Buckets.{ensure_bucket_exists, has_name}
use rust_local_storage_cdn.Storage.Store.{
  store_file, store_or_reuse, reuse, find_duplicate, aliased_row,
}
use rust_local_storage_cdn.Machine.Frames.{SameTables, settle}
use rust_local_storage_cdn.Machine.Frames.Store.{
  MayGrow, Saved, Stored, ensure-MayGrow, ensure-has_name, find_duplicate-SameTables,
  find_duplicate-find, store_new-Stored,
}

module _ (env : Env) (m : StorageManager) (bucket key : Text) where
  pub save_file-cases :
      (file : StoredFile) (w : World)
      → (((save_file env file w).0 ≡ ok tt) × ((save_file env file w).1.files ≡ upsert file w.files)
          ⊎ ((e : StorageError) × ((save_file env file w).0 ≡ err e)
              × ((save_file env file w).1.files ≡ w.files)))
        × ((save_file env file w).1.buckets ≡ w.buckets)
  unfolding save_file
  save_file-cases file w = ground arith

  saved-Stored :
      (hash : Text) (file : StoredFile) (w : World)
      → file.bucket ≡ bucket
      → file.key ≡ key
      → file.hash_blake3 ≡ hash
      → Stored env m bucket key hash w
          ((save_file env file >> pure file) w).0
          ((save_file env file >> pure file) w).1
  saved-Stored hash file w at_bucket at_key has_hash =
      let (saved, kept) = save_file-cases file w in
      elim saved [
        | inl (done, put_there) ↦ rw done (inl (at_bucket, at_key, has_hash, put_there), kept)
        | inr (e, failed, same) ↦ rw failed (same, kept)
      ]

  reuse-Stored :
      (content : Bytes) (content_type : Option Text) (opts : StoreOptions) (existing : StoredFile)
      (w : World)
      → find (λ row. text_eq row.hash_blake3 (env.blake3 content)) w.files ≡ some existing
      → Stored env m bucket key
          (env.blake3 content)
          w
          (reuse env m bucket key content content_type opts existing w).0
          (reuse env m bucket key content content_type opts existing w).1
  unfolding reuse aliased_row
  reuse-Stored content content_type opts existing w found =
      elim (Bool-cases (is_at bucket key existing)) [
        | inl same ↦ rw same (inr (same, found, refl), refl)
        | inr other ↦ rw other (
            saved-Stored (env.blake3 content)
              (aliased_row (env.uuid w.drawn) w.now bucket key (env.blake3 content)
                (env.md5 content) content_type opts existing)
              (record w { drawn = suc w.drawn }) refl refl refl)
      ]

  store_or_reuse-Stored :
      (content : Bytes) (content_type : Option Text) (opts : StoreOptions) (o : Option StoredFile)
      (w : World)
      → ((f : StoredFile)
          → o ≡ some f
          → find (λ row. text_eq row.hash_blake3 (env.blake3 content)) w.files ≡ some f)
      → Stored env m bucket key
          (env.blake3 content)
          w
          (store_or_reuse env m bucket key content content_type opts o w).0
          (store_or_reuse env m bucket key content content_type opts o w).1
  unfolding store_or_reuse
  store_or_reuse-Stored content content_type opts none w found =
      store_new-Stored env m bucket key content content_type opts w
  store_or_reuse-Stored content content_type opts (some f) w found =
      reuse-Stored content content_type opts f w (found f refl)

  Saved-files :
      (hash : Text) (files files1 : List StoredFile) (r : StorageResult StoredFile) (w : World)
      → files1 ≡ files
      → Saved bucket key hash files1 r w
      → Saved bucket key hash files r w
  Saved-files hash files files1 (err e) w f same = same ∙ f
  Saved-files hash files files1 (ok file) w f (inl (x, y, z, put_there)) =
      inl (x, y, z, put_there ∙ ap (upsert file) f)
  Saved-files hash files files1 (ok file) w f (inr (same, found, g)) =
      inr (same, ap (find (λ row. text_eq row.hash_blake3 hash)) (sym f) ∙ found, g ∙ f)

  kept_first :
      (hash : Text) (r : StorageResult StoredFile) (w w1 w2 : World)
      → SameTables w w1
      → Stored env m bucket key hash w1 r w2
      → Stored env m bucket key hash w r w2
  kept_first hash r w w1 w2 (f, b) (saved, kept) =
      (Saved-files hash w.files w1.files r w2 f saved, kept ∙ b)

  checked-Stored :
      (content : Bytes) (content_type : Option Text) (opts : StoreOptions) (w : World)
      → let rest =
          find_duplicate env m bucket key (env.blake3 content)
          >>= store_or_reuse env m bucket key content content_type opts in
        Stored env m bucket key (env.blake3 content) w (rest w).0 (rest w).1
  checked-Stored content content_type opts w =
      let w1 = (find_duplicate env m bucket key (env.blake3 content) w).1 in
      let k1 = find_duplicate-SameTables env m bucket key (env.blake3 content) w in
      settle (Stored env m bucket key (env.blake3 content) w)
        (find_duplicate env m bucket key (env.blake3 content) w).0 _ w1 (λ e bad. k1)
        (λ o done. kept_first (env.blake3 content) _ w w1 _ k1 (
          store_or_reuse-Stored content content_type opts o w1 (λ f is_f.
            ap (find (λ row. text_eq row.hash_blake3 (env.blake3 content))) k1.0
            ∙ find_duplicate-find env m bucket key (env.blake3 content) f w (done ∙ ap ok is_f))))

  -- A store, as the two tables see it.
  abbrev pub StoreOutcome : Text → World → StorageResult StoredFile → World → Type 0
  StoreOutcome hash w (err e) w' = (w'.files ≡ w.files) × MayGrow bucket w w'
  StoreOutcome hash w (ok file) w' =
      Saved bucket key hash w.files (ok file) w'
      × MayGrow bucket w w'
      × (any (has_name bucket) w'.buckets ≡ true)

  grown_first :
      (w w1 w2 : World) → MayGrow bucket w w1 → w2.buckets ≡ w1.buckets → MayGrow bucket w w2
  grown_first w w1 w2 (inl b) kept = inl (kept ∙ b)
  grown_first w w1 w2 (inr b) kept = inr (kept ∙ b)

  outcome_of :
      (hash : Text) (r : StorageResult StoredFile) (w w1 w2 : World)
      → w1.files ≡ w.files
      → MayGrow bucket w w1
      → any (has_name bucket) w1.buckets ≡ true
      → Stored env m bucket key hash w1 r w2
      → StoreOutcome hash w r w2
  outcome_of hash (err e) w w1 w2 f grown there (saved, kept) =
      (saved ∙ f, grown_first w w1 w2 grown kept)
  outcome_of hash (ok file) w w1 w2 f grown there (saved, kept) = (
    Saved-files hash w.files w1.files (ok file) w2 f saved,
    grown_first w w1 w2 grown kept,
    ap (any (has_name bucket)) kept ∙ there,
  )

  pub store_file-StoreOutcome :
      (content : Bytes) (content_type : Option Text) (opts : StoreOptions) (w : World)
      → StoreOutcome
          (env.blake3 content)
          w
          (store_file env m bucket key content content_type opts w).0
          (store_file env m bucket key content content_type opts w).1
  unfolding store_file
  store_file-StoreOutcome content content_type opts w =
      let base = m.config.storage.path in
      let w1 = (ensure_bucket_exists env base bucket w).1 in
      let (same, grown) = ensure-MayGrow env m bucket key base w in
      settle (StoreOutcome (env.blake3 content) w) (ensure_bucket_exists env base bucket w).0 _ w1
        (λ e bad. (same, grown))
        (λ u done.
          outcome_of (env.blake3 content) _ w w1 _ same grown
            (ensure-has_name env m bucket key base w done)
            (checked-Stored content content_type opts w1))
