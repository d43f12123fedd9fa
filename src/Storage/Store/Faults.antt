-- ===== src/Storage/Store/Faults.antt =====
-- What a store leaves untouched, whichever outside calls fail.
use rust_local_storage_cdn.Prelude.{
  ◌+◌, ◌≤◌, ◌∷◌, ◌++◌, length, length-append, Text, Bytes, Option, none, some, ok, err, ◌≡◌, ◌≢◌,
  refl, arith, Result-cases, Bool-cases, inl, inr, text_eq_iff, unwrap_or, ◌∙◌, ap, suc,
}
use rust_local_storage_cdn.Errors.{StorageError}
use rust_local_storage_cdn.Models.{StoredFile}
use rust_local_storage_cdn.World.{World, Env}
use rust_local_storage_cdn.Storage.Paths.{get_file_path, temp_path}
use rust_local_storage_cdn.Storage.Disk.{write_file, rename, write_file_atomic, unlink}
use rust_local_storage_cdn.Storage.Encode.{
  StoreOptions, StorageManager, encrypt_stage, encrypt_under, compress_stage,
}
use rust_local_storage_cdn.Crypto.{EncryptionAlgorithm, from_str}
use rust_local_storage_cdn.World.Actions.{◌>>◌, pure}
use rust_local_storage_cdn.Keys.{get_key}
use rust_local_storage_cdn.Database.{save_file}
use rust_local_storage_cdn.Cache.{set_file_metadata, set_file_content, backend_set}
use rust_local_storage_cdn.Storage.Store.{
  write_bytes, save_or_cleanup, cleanup, warm_cache, store_new, stored_row,
}

-- A text is not a longer one.
longer_ne : (a b c : Text) → length c ≤ length a + length b → c ≢ b'x' ∷ (a ++ b)
longer_ne a b c h e = omega (arith, ap length e, length-append a b)

module _ (env : Env) (m : StorageManager) (bucket key : Text) where
  write_bytes-other :
      (path other : Text) (stored : Bytes) (w : World)
      → env.canonical path ≢ other
      → env.canonical (temp_path path) ≢ other
      → ((write_bytes env m bucket key path stored w).1.disk other ≡ w.disk other)
  unfolding write_bytes write_file_atomic write_file rename
  write_bytes-other path other stored w h k = ground (
    arith,
    text_eq_iff (env.canonical path) other,
    text_eq_iff (env.canonical (temp_path path)) other,
  )

  save_or_cleanup-other :
      (path other : Text) (file : StoredFile) (w : World)
      → env.canonical path ≢ other
      → ((save_or_cleanup env m bucket key path file w).1.disk other ≡ w.disk other)
  unfolding save_or_cleanup cleanup save_file unlink
  save_or_cleanup-other path other file w h = ground (arith, text_eq_iff (env.canonical path) other)

  write_bytes-files :
      (path : Text) (stored : Bytes) (w : World)
      → (write_bytes env m bucket key path stored w).1.files ≡ w.files
  unfolding write_bytes write_file_atomic write_file rename
  write_bytes-files path stored w = ground arith

  save_or_cleanup-err :
      (path : Text) (file : StoredFile) (w : World) (e : StorageError)
      → (save_or_cleanup env m bucket key path file w).0 ≡ err e
      → (save_or_cleanup env m bucket key path file w).1.files ≡ w.files
  unfolding save_or_cleanup cleanup save_file unlink
  save_or_cleanup-err path file w e h = ground arith

  warm_cache-eq_ok :
      (file : StoredFile) (stored : Bytes) (w : World)
      → ((warm_cache env m bucket key file stored w).0 ≡ ok tt)
        × ((warm_cache env m bucket key file stored w).1.disk ≡ w.disk)
  unfolding warm_cache set_file_metadata set_file_content backend_set
  warm_cache-eq_ok file stored w = ground arith

  -- What an upload leaves as it was: the table, and the disk at another path.
  abbrev Frame : Text → World → World → Type 0
  Frame other w w' = (w'.files ≡ w.files) × (w'.disk other ≡ w.disk other)

  encrypt_under-Frame :
      (other : Text) (key_id : Option Text) (alg : EncryptionAlgorithm) (content : Bytes)
      (w : World)
      → Frame other w (encrypt_under env m key_id alg content w).1
  unfolding get_key
  encrypt_under-Frame other none alg content w = (refl, refl)
  encrypt_under-Frame other (some key_id) alg content w = ground arith

  encrypt_stage-Frame :
      (other : Text) (opts : StoreOptions) (content : Bytes) (w : World)
      → Frame other w (encrypt_stage env m opts content w).1
  unfolding encrypt_stage
  encrypt_stage-Frame other opts content w =
      elim (Bool-cases (unwrap_or opts.encrypt m.config.crypto.enabled)) [
        | inl on ↦ elim (Result-cases (from_str m.config.crypto.algorithm)) [
          | inl (alg, parsed) ↦
              elim (Result-cases (encrypt_under env m opts.encryption_key_id alg content w).0) [
                | inl (out, done) ↦
                    rw (on, parsed, done)
                      (encrypt_under-Frame other opts.encryption_key_id alg content w)
                | inr (e, failed) ↦
                    rw (on, parsed, failed)
                      (encrypt_under-Frame other opts.encryption_key_id alg content w)
              ]
          | inr (e, bad) ↦ rw (on, bad) (refl, refl)
        ]
        | inr off ↦ rw off (refl, refl)
      ]

  finish-frame :
      (path other : Text) (file : StoredFile) (stored : Bytes) (w : World)
      → env.canonical path ≢ other
      → let r =
          (save_or_cleanup env m bucket key path file
              >> (warm_cache env m bucket key file stored >> pure file))
            w in
        (r.1.disk other ≡ w.disk other) × ((e : StorageError) → r.0 ≡ err e → r.1.files ≡ w.files)
  finish-frame path other file stored w h =
      elim (Result-cases (save_or_cleanup env m bucket key path file w).0) [
        | inl (u, done) ↦
            let w1 = (save_or_cleanup env m bucket key path file w).1 in
            let (ended, same) = warm_cache-eq_ok file stored w1 in
            (
              rw (done, ended) (ap (λ d. d other) same ∙ save_or_cleanup-other path other file w h),
              λ e bad. ground (arith, rw (done, ended) at bad),
            )
        | inr (e, failed) ↦ (
          rw failed (save_or_cleanup-other path other file w h),
          λ e' bad. rw failed (save_or_cleanup-err path file w e failed),
        )
      ]

  store_new-both :
      (content : Bytes) (content_type : Option Text) (opts : StoreOptions) (w : World)
      (other : Text)
      → env.canonical (get_file_path m.config.storage.path bucket key) ≢ other
      → env.canonical (temp_path (get_file_path m.config.storage.path bucket key)) ≢ other
      → ((store_new env m bucket key content content_type opts w).1.disk other ≡ w.disk other)
        × ((e : StorageError)
            → (store_new env m bucket key content content_type opts w).0 ≡ err e
            → (store_new env m bucket key content content_type opts w).1.files ≡ w.files)
  unfolding store_new
  store_new-both content content_type opts w other h k =
      let squeezed = compress_stage env m opts content in
      let path = get_file_path m.config.storage.path bucket key in
      let w1 = (encrypt_stage env m opts squeezed.0 w).1 in
      let (files1, disk1) = encrypt_stage-Frame other opts squeezed.0 w in
      elim (Result-cases (encrypt_stage env m opts squeezed.0 w).0) [
        | inl ((stored, encrypted), sealed) ↦
            let w2 = (write_bytes env m bucket key path stored w1).1 in
            let disk2 = write_bytes-other path other stored w1 h k ∙ disk1 in
            let files2 = write_bytes-files path stored w1 ∙ files1 in
            elim (Result-cases (write_bytes env m bucket key path stored w1).0) [
              | inl (u, wrote) ↦
                  let row =
                    stored_row m (env.uuid w2.drawn) w2.now bucket key path (env.blake3 content)
                      (env.md5 content) content_type opts content squeezed.0 stored squeezed.1
                      encrypted in
                  let (disk3, files3) =
                    finish-frame path other row stored (record w2 { drawn = suc w2.drawn }) h in
                  (
                    rw (sealed, wrote) (disk3 ∙ disk2),
                    λ e bad.
                        rw (sealed, wrote)
                          (files3 e (rw (store_new, sealed, wrote) at bad) ∙ files2),
                  )
              | inr (e, failed) ↦ (rw (sealed, failed) disk2, λ e' bad. rw (sealed, failed) files2)
            ]
        | inr (e, failed) ↦ (rw failed disk1, λ e' bad. rw failed files1)
      ]

  -- Storing new content, whatever fails on the way: every file on disk but the one that the path of
  -- the object names and the one that its temporary path names is as before.
  pub store_new-frame :
      (content : Bytes) (content_type : Option Text) (opts : StoreOptions) (w : World)
      (other : Text)
      → env.canonical (get_file_path m.config.storage.path bucket key) ≢ other
      → env.canonical (temp_path (get_file_path m.config.storage.path bucket key)) ≢ other
      → (store_new env m bucket key content content_type opts w).1.disk other ≡ w.disk other
  store_new-frame content content_type opts w other h k =
      (store_new-both content content_type opts w other h k).0

  -- A store of new content that fails, at whatever call, leaves the table of files as it was.
  pub store_new-err :
      (content : Bytes) (content_type : Option Text) (opts : StoreOptions) (w : World)
      (e : StorageError)
      → (store_new env m bucket key content content_type opts w).0 ≡ err e
      → (store_new env m bucket key content content_type opts w).1.files ≡ w.files
  store_new-err content content_type opts w e failed =
      let path = env.canonical (get_file_path m.config.storage.path bucket key) in
      let temp = env.canonical (temp_path (get_file_path m.config.storage.path bucket key)) in
      (store_new-both content content_type opts w (b'x' ∷ (path ++ temp))
          (longer_ne path temp path (omega arith)) (longer_ne path temp temp (omega arith))).1
        e failed
