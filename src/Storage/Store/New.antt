-- ===== src/Storage/Store/New.antt =====
-- What is known after `store_file` of local-storage/src/storage.rs has stored content that no row
-- holds yet, where no outside call fails.
use rust_local_storage_cdn.Prelude.{
  false, ℕ, suc, Text, Bytes, Bool, true, Option, none, some, List, find, any, ok, err, ◌≡◌, refl,
  ap, sym, ◌∙◌, text_eq, inl, inr, Bool-cases, Option-cases, Result-cases, unwrap_or,
}
use rust_local_storage_cdn.Errors.{StorageResult}
use rust_local_storage_cdn.Models.{StoredFile}
use rust_local_storage_cdn.World.{World, Env, BucketRow, IsCalm, IsSound}
use rust_local_storage_cdn.Database.{get_file_by_hash}
use rust_local_storage_cdn.Crypto.{from_str, EncryptionAlgorithm}
use rust_local_storage_cdn.World.Actions.{continue}
use rust_local_storage_cdn.Keys.{get_key, is_active_key}
use rust_local_storage_cdn.Storage.Encode.{
  should_encrypt, StorageManager, StoreOptions, compress_stage, encrypt_stage, encrypt_under,
}
use rust_local_storage_cdn.Storage.Buckets.{
  ensure_bucket_exists, create_bucket, insert_bucket_row, has_name,
}
use rust_local_storage_cdn.Storage.Store.{store_file, store_new, store_or_reuse, find_duplicate}
use rust_local_storage_cdn.Storage.Store.Laws.{store_new-calm, new_row, after_store}

module _ (env : Env) (calm : IsCalm env) (m : StorageManager) where
  ensure-calm :
      (base bucket : Text) (w : World)
      → (rows : List BucketRow) × (ensure_bucket_exists env base bucket w
          ≡ (ok tt, record w { buckets = rows }))
  unfolding ensure_bucket_exists create_bucket
  ensure-calm base bucket w = elim (Bool-cases (any (has_name bucket) w.buckets)) [
    | inl here ↦ (w.buckets, simp (calm, here))
    | inr new ↦ (insert_bucket_row bucket w.now w.buckets, simp (calm, new))
  ]

  find_duplicate-none :
      (bucket key hash : Text) (w : World)
      → find (λ row. text_eq row.hash_blake3 hash) w.files ≡ none
      → find_duplicate env m bucket key hash w ≡ (ok none, w)
  unfolding find_duplicate get_file_by_hash
  find_duplicate-none bucket key hash w h =
      elim (Bool-cases m.config.storage.enable_deduplication) [
        | inl on ↦ simp (on, calm, h)
        | inr off ↦ simp off
      ]

  encrypt_under-world :
      (key_id : Option Text) (alg : EncryptionAlgorithm) (content : Bytes) (w : World)
      → (n : ℕ) × ((encrypt_under env m key_id alg content w).1 ≡ record w { drawn = n })
  unfolding get_key
  encrypt_under-world none alg content w = (suc w.drawn, refl)
  encrypt_under-world (some key_id) alg content w =
      elim (Option-cases (find (is_active_key key_id) w.keys)) [
        | inl missing ↦ (w.drawn, simp (calm, missing))
        | inr (key, found) ↦ (suc w.drawn, simp (calm, found))
      ]

  after_sealing :
      (r : StorageResult Bytes) (w : World)
      → (continue {B = Bytes × Bool} r (λ out w'. (ok (out, true), w')) w).1 ≡ w
  after_sealing (ok out) w = refl
  after_sealing (err e) w = refl

  -- The encryption stage draws a nonce and changes nothing else.
  encrypt_stage-world :
      (opts : StoreOptions) (content : Bytes) (w : World)
      → (n : ℕ) × ((encrypt_stage env m opts content w).1 ≡ record w { drawn = n })
  unfolding encrypt_stage
  encrypt_stage-world opts content w =
      elim (Bool-cases (unwrap_or opts.encrypt m.config.crypto.enabled)) [
        | inl on ↦ elim (Result-cases (from_str m.config.crypto.algorithm)) [
          | inl (alg, parsed) ↦
              let (n, same) = encrypt_under-world opts.encryption_key_id alg content w in
              (n, rw (on, parsed, after_sealing) same)
          | inr (e, bad) ↦ (w.drawn, rw (on, bad))
        ]
        | inr off ↦ (w.drawn, rw off)
      ]

module _ (env : Env) (calm : IsCalm env) (sound : IsSound env) (m : StorageManager)
    (bucket key : Text) where
  -- A new upload goes on to `store_new`, once its bucket is there.
  store_file-new :
      (content : Bytes) (content_type : Option Text) (opts : StoreOptions) (w : World)
      → find (λ row. text_eq row.hash_blake3 (env.blake3 content)) w.files ≡ none
      → (rows : List BucketRow) × (store_file env m bucket key content content_type opts w
          ≡ store_new env m bucket key content content_type opts (record w { buckets = rows }))
  unfolding store_file store_or_reuse
  store_file-new content content_type opts w h =
      let (rows, ready) = ensure-calm env calm m m.config.storage.path bucket w in
      (
        rows,
        rw (
          ready,
          find_duplicate-none env calm m bucket key (env.blake3 content)
              (record w { buckets = rows }) h,
        ),
      )

  -- A store that succeeds was one whose encryption stage did.
  store_new-ok :
      (content : Bytes) (content_type : Option Text) (opts : StoreOptions) (w w' : World)
      (file : StoredFile)
      → store_new env m bucket key content content_type opts w ≡ (ok file, w')
      → (stored : Bytes) × (encrypted : Bool) × ((encrypt_stage env m opts
            (compress_stage env m opts content).0
            w).0
          ≡ ok (stored, encrypted))
  unfolding store_new
  store_new-ok content content_type opts w w' file h =
      elim (Result-cases (encrypt_stage env m opts (compress_stage env m opts content).0 w).0) [
        | inl ((stored, encrypted), done) ↦ (stored, encrypted, done)
        | inr (e, failed) ↦ let h' = rw (store_new, failed) at h in cc
      ]

  ok-pair :
      (row file : StoredFile) (v w : World)
      → Path (StorageResult StoredFile × World) (ok row, v) (ok file, w)
      → (file ≡ row) × (w ≡ v)
  ok-pair row file v w h = (cc, cc)

  -- The stages, the row, and the world after a store of new content.
  pub record IsStored (content : Bytes) (content_type : Option Text) (opts : StoreOptions)
      (file : StoredFile) (w w' : World) : Type 0 where
    pub squeezed : Bytes
    pub compressed : Bool
    pub stored : Bytes
    pub encrypted : Bool
    pub before : World
    pub between : World
    pub row_bytes : Bytes
    pub first : compress_stage env m opts content ≡ (squeezed, compressed)
    pub second : encrypt_stage env m opts squeezed before ≡ (ok (stored, encrypted), between)
    pub keys_kept : between.keys ≡ before.keys
    pub cache_kept : between.cache ≡ w.cache
    pub parsed : env.from_slice row_bytes ≡ ok file
    pub is_row :
        file
        ≡ new_row env calm m bucket key content squeezed stored compressed encrypted content_type
            opts between
    pub after : w' ≡ after_store env calm m bucket key file row_bytes stored between

  store_new-IsStored :
      (content : Bytes) (content_type : Option Text) (opts : StoreOptions) (file : StoredFile)
      (w w0 w1 w' : World) (stored : Bytes) (encrypted : Bool)
      → encrypt_stage env m opts (compress_stage env m opts content).0 w0
        ≡ (ok (stored, encrypted), w1)
      → (n : ℕ) × (w1 ≡ record w0 { drawn = n })
      → store_new env m bucket key content content_type opts w0 ≡ (ok file, w')
      → w0.cache ≡ w.cache
      → IsStored content content_type opts file w w'
  store_new-IsStored content content_type opts file w w0 w1 w' stored encrypted second (n, kept)
        stores same =
      let squeezed = (compress_stage env m opts content).0 in
      let compressed = (compress_stage env m opts content).1 in
      let row =
        new_row env calm m bucket key content squeezed stored compressed encrypted content_type opts
          w1 in
      let (bytes, written, parsed) = sound.json_law row in
      let (is_row, world) =
        ok-pair row file (after_store env calm m bucket key row bytes stored w1) w' (
          sym (
            store_new-calm env calm m bucket key content squeezed stored bytes compressed encrypted
              content_type opts w0 w1 refl second written)
          ∙ stores) in
      record {
        squeezed = squeezed;
        compressed = compressed;
        stored = stored;
        encrypted = encrypted;
        before = w0;
        between = w1;
        row_bytes = bytes;
        first = refl;
        second = second;
        keys_kept = ap (λ (v : World). v.keys) kept;
        cache_kept = ap (λ (v : World). v.cache) kept ∙ same;
        parsed = rw is_row parsed;
        is_row = is_row;
        after = rw is_row world;
      }

  -- A store of new content that succeeds is of this form.
  pub store_file-IsStored :
      (content : Bytes) (content_type : Option Text) (opts : StoreOptions) (file : StoredFile)
      (w w' : World)
      → find (λ row. text_eq row.hash_blake3 (env.blake3 content)) w.files ≡ none
      → store_file env m bucket key content content_type opts w ≡ (ok file, w')
      → IsStored content content_type opts file w w'
  store_file-IsStored content content_type opts file w w' fresh h =
      let (rows, step) = store_file-new content content_type opts w fresh in
      let w0 = record w { buckets = rows } in
      let squeezed = (compress_stage env m opts content).0 in
      let stores = rw step at h in
      let (stored, encrypted, done) = store_new-ok content content_type opts w0 w' file stores in
      store_new-IsStored content content_type opts file w w0
        (encrypt_stage env m opts squeezed w0).1 w' stored encrypted
        (λ i. (done i, (encrypt_stage env m opts squeezed w0).1))
        (encrypt_stage-world env calm m opts squeezed w0) stores refl

  -- Where no outside call fails and the crates keep their promises, storing content that no row holds yet without encryption succeeds.
  pub store_file-succeeds :
      (content : Bytes) (content_type : Option Text) (opts : StoreOptions) (w : World)
      → should_encrypt m opts ≡ false
      → find (λ row. text_eq row.hash_blake3 (env.blake3 content)) w.files ≡ none
      → (file : StoredFile) × (w' : World) × (store_file env m bucket key content content_type opts
            w
          ≡ (ok file, w'))
  unfolding encrypt_stage
  store_file-succeeds content content_type opts w plain fresh =
      let (rows, step) = store_file-new content content_type opts w fresh in
      let w0 = record w { buckets = rows } in
      let (squeezed, compressed) = compress_stage env m opts content in
      let row =
        new_row env calm m bucket key content squeezed squeezed compressed false content_type opts
          w0 in
      let (bytes, written, parsed) = sound.json_law row in
      (
        row,
        after_store env calm m bucket key row bytes squeezed w0,
        step
            ∙ store_new-calm env calm m bucket key content squeezed squeezed bytes compressed false
                content_type opts w0 w0 refl (rw plain refl) written,
      )
