-- ===== src/Storage/Fetch/Expiry.antt =====
-- A file whose TTL has passed is not served.
use rust_local_storage_cdn.Prelude.{
  ℕ, ◌<◌, Text, Bytes, false, Bool-cases, Option, none, some, Result-cases, Option-cases, inl, inr,
  ok, err, ◌≡◌, ◌⊎◌, arith, ◌∙◌, ap, sym,
}
use rust_local_storage_cdn.Errors.{StorageResult}
use rust_local_storage_cdn.Models.{StoredFile}
use rust_local_storage_cdn.World.{World, Env}
use rust_local_storage_cdn.Database
use rust_local_storage_cdn.Database.{lookup}
use rust_local_storage_cdn.Cache.{
  metadata_key, get_file_metadata, set_file_metadata, backend_get, backend_set, backend_del,
  parse_entry, parsed_or_miss,
}
use rust_local_storage_cdn.Storage.Encode.{StorageManager}
use rust_local_storage_cdn.Storage.Fetch.{
  load_row, cached_or_row, row_from_database, unless_expired, has_expired, get_file,
}

-- An expiry, if there is one, is still to come.
abbrev pub IsLive : Option ℕ → ℕ → Type 0
IsLive none now = Unit
IsLive (some t) now = now < t

has_expired-false : (t : Option ℕ) (now : ℕ) → has_expired t now ≡ false → IsLive t now
has_expired-false none now h = tt
has_expired-false (some t) now h = ground (arith, h)

module _ (env : Env) (m : StorageManager) (bucket key : Text) where
  -- The row of the key, in the table or in the cache.
  abbrev pub IsRow : World → StoredFile → Type 0
  IsRow w file =
      (lookup bucket key w.files ≡ some file)
      ⊎ ((bytes : Bytes) × (w.cache (metadata_key bucket key) ≡ some bytes)
          × (env.from_slice bytes ≡ ok file))

  row_from_database-ok :
      (w : World) (file : StoredFile)
      → (row_from_database env m bucket key w).0 ≡ ok file
      → lookup bucket key w.files ≡ some file
  unfolding row_from_database Database.get_file
  row_from_database-ok w file h = elim (Option-cases (lookup bucket key w.files)) [
    | inl absent ↦ ground (arith, h)
    | inr (found, there) ↦ ground (arith, h)
  ]

  row_from_database-now : (w : World) → (row_from_database env m bucket key w).1.now ≡ w.now
  unfolding row_from_database Database.get_file set_file_metadata backend_set
  row_from_database-now w = ground arith

  get_file_metadata-same :
      (w : World)
      → ((get_file_metadata env bucket key w).1.files ≡ w.files)
        × ((get_file_metadata env bucket key w).1.now ≡ w.now)
  unfolding get_file_metadata backend_get parse_entry parsed_or_miss backend_del
  get_file_metadata-same w = ground arith

  get_file_metadata-ok :
      (w : World) (file : StoredFile)
      → (get_file_metadata env bucket key w).0 ≡ ok (some file)
      → (bytes : Bytes) × (w.cache (metadata_key bucket key) ≡ some bytes)
        × (env.from_slice bytes ≡ ok file)
  unfolding get_file_metadata backend_get parse_entry parsed_or_miss
  get_file_metadata-ok w file h = elim (Option-cases (w.cache (metadata_key bucket key))) [
    | inl absent ↦ absurd (ground (arith, h))
    | inr (bytes, there) ↦ (bytes, there, ground (arith, h))
  ]

  cached_or_row-ok :
      (r : StorageResult (Option StoredFile)) (w0 w : World) (file : StoredFile)
      → ((f : StoredFile) → r ≡ ok (some f) → IsRow w0 f)
      → (w.files ≡ w0.files) × (w.now ≡ w0.now)
      → (cached_or_row env m bucket key r w).0 ≡ ok file
      → IsRow w0 file × ((cached_or_row env m bucket key r w).1.now ≡ w0.now)
  unfolding cached_or_row
  cached_or_row-ok (ok (some f)) w0 w file hit same h =
      (hit file (ap (λ x. ok (some x)) (let one : f ≡ file = cc in one)), same.1)
  cached_or_row-ok (ok none) w0 w file hit (files, now) h = (
    inl (ap (lookup bucket key) (sym files) ∙ row_from_database-ok w file h),
    row_from_database-now w ∙ now,
  )
  cached_or_row-ok (err e) w0 w file hit (files, now) h = (
    inl (ap (lookup bucket key) (sym files) ∙ row_from_database-ok w file h),
    row_from_database-now w ∙ now,
  )

  load_row-ok :
      (w : World) (file : StoredFile)
      → (load_row env m bucket key w).0 ≡ ok file
      → IsRow w file × ((load_row env m bucket key w).1.now ≡ w.now)
  unfolding load_row
  load_row-ok w file h =
      cached_or_row-ok (get_file_metadata env bucket key w).0 w
        (get_file_metadata env bucket key w).1 file (λ f e. inr (get_file_metadata-ok w f e))
        (get_file_metadata-same w) h

  -- Whichever outside calls fail: a read that succeeds was of a row of its key, from the table or from
  -- the cache, that has no expiry or one that is still to come.
  pub get_file-IsLive :
      (w : World) (content : Bytes × Option Text)
      → (get_file env m bucket key w).0 ≡ ok content
      → (file : StoredFile) × IsRow w file × IsLive file.expires_at w.now
  unfolding get_file unless_expired
  get_file-IsLive w content h = elim (Result-cases (load_row env m bucket key w).0) [
    | inl (file, found) ↦
        let (row, now) = load_row-ok w file found in
        elim (Bool-cases (has_expired file.expires_at w.now)) [
          | inl old ↦ absurd (ground (arith, rw (found, now, old) at h))
          | inr fresh ↦ (file, row, has_expired-false file.expires_at w.now fresh)
        ]
    | inr (e, failed) ↦ absurd (ground (arith, rw failed at h))
  ]
