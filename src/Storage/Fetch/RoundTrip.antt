-- ===== src/Storage/Fetch/RoundTrip.antt =====
-- What was stored is what is read.
use rust_local_storage_cdn.Prelude.{
  ℕ, Text, Bytes, Bool, true, false, Option, none, some, find, length, ltb, ok, ◌≡◌, refl, ap, ◌∙◌,
  text_eq, text_eq_refl, ◌⊎◌, inl, inr, Bool-cases,
}
use rust_local_storage_cdn.Models.{StoredFile}
use rust_local_storage_cdn.World.{World, Env, IsCalm, IsSound}
use rust_local_storage_cdn.Cache.{content_key, metadata_key, max_cache_size}
use rust_local_storage_cdn.Storage.Encode.{
  StorageManager, StoreOptions, compress_stage, encrypt_stage,
}
use rust_local_storage_cdn.Storage.Encode.Laws.{decode_content-stages}
use rust_local_storage_cdn.Storage.Store.{store_file, stored_row}
use rust_local_storage_cdn.Storage.Store.Laws.{
  written_here, new_row, after_store, path_here, warmed,
}
use rust_local_storage_cdn.Storage.Fetch.{get_file, has_expired}
use rust_local_storage_cdn.Storage.Fetch.Laws.{get_file-calm, Serves}
use rust_local_storage_cdn.Storage.Store.New.{store_file-IsStored}

keys_differ :
    (bucket key : Text) → text_eq (metadata_key bucket key) (content_key bucket key) ≡ false
unfolding metadata_key content_key text_eq
keys_differ bucket key = refl

keys_differ' :
    (bucket key : Text) → text_eq (content_key bucket key) (metadata_key bucket key) ≡ false
unfolding metadata_key content_key text_eq
keys_differ' bucket key = refl

module _ (env : Env) (calm : IsCalm env) (sound : IsSound env) (m : StorageManager)
    (bucket key : Text) where
  pub warmed-metadata :
      (bytes stored : Bytes) (cache : Text → Option Bytes)
      → warmed env calm m bucket key bytes stored cache (metadata_key bucket key) ≡ some bytes
  warmed-metadata bytes stored cache = elim (Bool-cases (ltb max_cache_size (length stored))) [
    | inl big ↦ rw (big, text_eq_refl (metadata_key bucket key))
    | inr small ↦ rw (small, keys_differ' bucket key, text_eq_refl (metadata_key bucket key))
  ]

  -- After a store, the bytes are in the cache, or they are too large for it and none were there.
  store-Serves :
      (file : StoredFile) (bytes stored : Bytes) (w1 : World) (now : ℕ)
      → ((ltb max_cache_size (length stored) ≡ false) ⊎ (w1.cache (content_key bucket key) ≡ none))
      → Serves env calm m bucket key
          (record (after_store env calm m bucket key file bytes stored w1) { now = now })
          (path_here env calm m bucket key)
          stored
  store-Serves file bytes stored w1 now (inl small) =
      inl (rw (small, text_eq_refl (content_key bucket key)))
  store-Serves file bytes stored w1 now (inr empty) =
      elim (Bool-cases (ltb max_cache_size (length stored))) [
        | inl big ↦ inr (
          rw (big, keys_differ bucket key, empty),
          written_here env (path_here env calm m bucket key) stored w1.disk,
          big,
        )
        | inr small ↦ inl (rw (small, text_eq_refl (content_key bucket key)))
      ]

  get_file-after_store :
      (content squeezed stored bytes : Bytes) (compressed encrypted : Bool)
      (content_type : Option Text) (opts : StoreOptions) (w w1 : World) (now : ℕ)
      → compress_stage env m opts content ≡ (squeezed, compressed)
      → encrypt_stage env m opts squeezed w ≡ (ok (stored, encrypted), w1)
      → w1.keys ≡ w.keys
      → (compressed ≡ true → m.config.compression.enabled ≡ true)
      → ((ltb max_cache_size (length stored) ≡ false) ⊎ (w1.cache (content_key bucket key) ≡ none))
      → has_expired opts.expires_at now ≡ false
      → (file : StoredFile)
      → file
        ≡ new_row env calm m bucket key content squeezed stored compressed encrypted content_type
            opts w1
      → env.from_slice bytes ≡ ok file
      → (get_file env m bucket key
          (record (after_store env calm m bucket key file bytes stored w1) { now = now })).0
        ≡ ok (content, some file.content_type)
  unfolding stored_row
  get_file-after_store content squeezed stored bytes compressed encrypted content_type opts w w1 now
        first second same on room fresh file is_new json =
      get_file-calm env calm m bucket key file bytes stored content _
        (warmed-metadata bytes stored w1.cache) json (rw (is_new, fresh))
        (rw is_new (store-Serves file bytes stored w1 now room))
        (decode_content-stages env calm sound m opts content squeezed stored compressed encrypted
          file w w1 _ first second same on (ap (λ (r : StoredFile). r.is_compressed) is_new)
          (ap (λ (r : StoredFile). r.is_encrypted) is_new)
          (ap (λ (r : StoredFile). r.encryption_key_id) is_new) (λ yes. rw (is_new, yes)))

  -- Where no outside call fails and the crates keep their promises: when content that no row holds yet is stored, a read of its key gives
  -- back the content and the row's content type, at any later time before its expiry. If it was
  -- compressed, the settings have compression enabled when it is read; and the stored bytes fit the
  -- cache, or no content was cached under the key before.
  pub get_file-store_file :
      (content : Bytes) (content_type : Option Text) (opts : StoreOptions) (file : StoredFile)
      (w w' : World) (later : ℕ)
      → find (λ row. text_eq row.hash_blake3 (env.blake3 content)) w.files ≡ none
      → store_file env m bucket key content content_type opts w ≡ (ok file, w')
      → (file.is_compressed ≡ some true → m.config.compression.enabled ≡ true)
      → ((ltb max_cache_size file.file_size ≡ false) ⊎ (w.cache (content_key bucket key) ≡ none))
      → has_expired file.expires_at later ≡ false
      → (get_file env m bucket key (record w' { now = later })).0
        ≡ ok (content, some file.content_type)
  unfolding stored_row
  get_file-store_file content content_type opts file w w' later fresh h on room live =
      let s =
        store_file-IsStored env calm sound m bucket key content content_type opts file w w' fresh
          h in
      rw s.after (
        get_file-after_store content s.squeezed s.stored s.row_bytes s.compressed s.encrypted
          content_type opts s.before s.between later s.first s.second s.keys_kept
          (λ yes. on (ap (λ (f : StoredFile). f.is_compressed) s.is_row ∙ ap some yes))
          (rw s.cache_kept (rw s.is_row at room)) (rw s.is_row at live) file s.is_row s.parsed)
