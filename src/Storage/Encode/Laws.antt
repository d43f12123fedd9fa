-- ===== src/Storage/Encode/Laws.antt =====
-- `decode_content` undoes the stages of `store_file`.
use rust_local_storage_cdn.Prelude.{
  Text, Bytes, Bool, true, false, Option, none, some, length, ltb, ltb→lt, Result, ok, err,
  Bool-cases, Result-cases, inl, inr, ◌≡◌, ◌⊎◌, ap, arith, find, unwrap_or,
}
use rust_local_storage_cdn.Models.{StoredFile, EncryptionKey}
use rust_local_storage_cdn.Errors.{StorageError, StorageResult}
use rust_local_storage_cdn.Compression.{compress}
use rust_local_storage_cdn.Compression.RoundTrip.{decompress-compress}
use rust_local_storage_cdn.Crypto.{EncryptionAlgorithm, from_str, decrypt_with_key}
use rust_local_storage_cdn.Crypto.Laws.{decrypt-encrypt, decrypt_with_key-encrypt_with_key}
use rust_local_storage_cdn.World.{World, Env, IsCalm, IsSound}
use rust_local_storage_cdn.World.Actions.{continue, lift}
use rust_local_storage_cdn.Keys.{get_key, or_unknown, is_active_key}
use rust_local_storage_cdn.Storage.Encode.{
  StoreOptions, StorageManager, upload_compression, compress_stage, encrypt_stage, encrypt_under,
  sealed_under, decrypt_under, decompress_stage, decrypt_stage, decode_content,
}

module _ (env : Env) (m : StorageManager) (opts : StoreOptions) where
  -- The stage either compressed to something shorter, or left the content alone.
  pub compress_stage_cases :
      (content squeezed : Bytes) (compressed : Bool)
      → compress_stage env m opts content ≡ (squeezed, compressed)
      → ((compressed ≡ false) × (squeezed ≡ content))
        ⊎ ((compressed ≡ true)
            × (compress env.codec (upload_compression m opts) content ≡ ok squeezed)
            × (ltb (length squeezed) (length content) ≡ true))
  unfolding compress_stage
  compress_stage_cases content squeezed compressed h = ground arith

module _ (env : Env) (calm : IsCalm env) (sound : IsSound env) (m : StorageManager)
    (opts : StoreOptions) where
  decompress-compress_stage :
      (content squeezed : Bytes) (compressed : Bool) (file : StoredFile) (w : World)
      → compress_stage env m opts content ≡ (squeezed, compressed)
      → (compressed ≡ true → m.config.compression.enabled ≡ true)
      → file.is_compressed ≡ some compressed
      → decompress_stage env m file squeezed w ≡ (ok content, w)
  unfolding decompress_stage
  decompress-compress_stage content squeezed compressed file w h on flag =
      elim (compress_stage_cases env m opts content squeezed compressed h) [
        | inl (plain, same) ↦ rw (flag, plain, same)
        | inr (packed, done, shorter) ↦ rw (
          flag,
          packed,
          decompress-compress env.codec sound.codec_law (upload_compression m opts)
              m.config.compression content squeezed (on packed) done (ltb→lt _ _ shorter),
        )
      ]

  get_key-calm :
      (key_id : Text) (w : World)
      → get_key env key_id w ≡ or_unknown key_id (find (is_active_key key_id) w.keys) w
  unfolding get_key
  get_key-calm key_id w = simp calm

  decrypt-encrypt_key :
      (key_id : Text) (key : Option EncryptionKey) (alg : EncryptionAlgorithm)
      (content stored : Bytes) (w w1 w2 : World)
      → continue
          (or_unknown key_id key w).0
          (λ k. sealed_under env m content alg k)
          (or_unknown key_id key w).1
        ≡ (ok stored, w1)
      → continue
          (or_unknown key_id key w2).0
          (λ k. lift (decrypt_with_key env.aead stored alg k.key_data))
          (or_unknown key_id key w2).1
        ≡ (ok content, w2)
  decrypt-encrypt_key key_id none alg content stored w w1 w2 h = cc
  decrypt-encrypt_key key_id (some key) alg content stored w w1 w2 h = rw (
      decrypt_with_key-encrypt_with_key env.aead sound.aead_law (env.nonce w.drawn) content stored
        key.key_data alg (sound.nonce_law w.drawn)
        (ap (λ (r : Result StorageError Bytes × World). r.0) h))

  decrypt-encrypt_under :
      (key_id : Option Text) (alg : EncryptionAlgorithm) (content stored : Bytes) (w w1 w2 : World)
      → w2.keys ≡ w.keys
      → encrypt_under env m key_id alg content w ≡ (ok stored, w1)
      → decrypt_under env m key_id alg stored w2 ≡ (ok content, w2)
  decrypt-encrypt_under none alg content stored w w1 w2 same h = rw (
      decrypt-encrypt env.aead sound.aead_law m.crypto (env.nonce w.drawn) content stored alg
        (sound.nonce_law w.drawn) (ap (λ (r : Result StorageError Bytes × World). r.0) h))
  decrypt-encrypt_under (some key_id) alg content stored w w1 w2 same h =
      simp (get_key-calm key_id w2, same)
        (decrypt-encrypt_key key_id (find (is_active_key key_id) w.keys) alg content stored w w1 w2
          (rw (get_key-calm key_id w) at h))

  -- The chain behind a parsed algorithm.
  finish_stage :
      (r : StorageResult Bytes) (w' w1 : World) (stored : Bytes) (encrypted : Bool)
      → continue {B = Bytes × Bool} r (λ out w''. (ok (out, true), w'')) w'
        ≡ (ok (stored, encrypted), w1)
      → (encrypted ≡ true) × (r ≡ ok stored) × (w' ≡ w1)
  finish_stage (ok out) w' w1 stored encrypted h = ground arith
  finish_stage (err e) w' w1 stored encrypted h = cc

  -- How the encryption stage can have succeeded.
  pub encrypt_stage_cases :
      (content stored : Bytes) (encrypted : Bool) (w w1 : World)
      → encrypt_stage env m opts content w ≡ (ok (stored, encrypted), w1)
      → ((encrypted ≡ false) × (stored ≡ content))
        ⊎ ((alg : EncryptionAlgorithm) × (encrypted ≡ true)
            × (from_str m.config.crypto.algorithm ≡ ok alg)
            × (encrypt_under env m opts.encryption_key_id alg content w ≡ (ok stored, w1)))
  unfolding encrypt_stage
  encrypt_stage_cases content stored encrypted w w1 h =
      elim (Bool-cases (unwrap_or opts.encrypt m.config.crypto.enabled)) [
        | inl on ↦ elim (Result-cases (from_str m.config.crypto.algorithm)) [
          | inl (alg, parsed) ↦
              let (flag, sealed, last) =
                finish_stage (encrypt_under env m opts.encryption_key_id alg content w).0
                  (encrypt_under env m opts.encryption_key_id alg content w).1 w1 stored encrypted
                  (rw (on, parsed, encrypt_stage) at h) in
              inr (alg, flag, parsed, λ i. (sealed i, last i))
          | inr (e, bad) ↦ ground arith
        ]
        | inr off ↦ inl (ground arith)
      ]

  decrypt-encrypt_stage :
      (content stored : Bytes) (encrypted : Bool) (file : StoredFile) (w w1 w2 : World)
      → encrypt_stage env m opts content w ≡ (ok (stored, encrypted), w1)
      → w2.keys ≡ w.keys
      → file.is_encrypted ≡ some encrypted
      → file.encryption_key_id ≡ opts.encryption_key_id
      → (encrypted ≡ true → file.encryption_algorithm ≡ some m.config.crypto.algorithm)
      → decrypt_stage env m file stored w2 ≡ (ok content, w2)
  unfolding decrypt_stage
  decrypt-encrypt_stage content stored encrypted file w w1 w2 h same flag key_id algorithm =
      elim (encrypt_stage_cases content stored encrypted w w1 h) [
        | inl (plain, kept) ↦ rw (flag, plain, kept)
        | inr (alg, on, parsed, sealed) ↦
            rw (flag, on, algorithm on, parsed, key_id)
              (decrypt-encrypt_under opts.encryption_key_id alg content stored w w1 w2 same sealed)
      ]

  -- Where no outside call fails and the crates keep their promises: what the two stages stored is
  -- decoded to the content, in any later world with the same keys, from
  -- a row that records what the stages did; a compressed file needs compression to be enabled in the
  -- settings when it is read.
  pub decode_content-stages :
      (content squeezed stored : Bytes) (compressed encrypted : Bool) (file : StoredFile)
      (w w1 w2 : World)
      → compress_stage env m opts content ≡ (squeezed, compressed)
      → encrypt_stage env m opts squeezed w ≡ (ok (stored, encrypted), w1)
      → w2.keys ≡ w.keys
      → (compressed ≡ true → m.config.compression.enabled ≡ true)
      → file.is_compressed ≡ some compressed
      → file.is_encrypted ≡ some encrypted
      → file.encryption_key_id ≡ opts.encryption_key_id
      → (encrypted ≡ true → file.encryption_algorithm ≡ some m.config.crypto.algorithm)
      → decode_content env m file stored w2 ≡ (ok content, w2)
  unfolding decode_content
  decode_content-stages content squeezed stored compressed encrypted file w w1 w2 first second same
        on flag sealed key_id algorithm =
      rw
        (decrypt-encrypt_stage squeezed stored encrypted file w w1 w2 second same sealed key_id
          algorithm)
        (decompress-compress_stage content squeezed compressed file w2 first on flag)
