-- ===== src/Machine/Frames/Store.antt =====
-- What storing a file does to the two tables, whichever outside calls fail.
use rust_local_storage_cdn.Prelude.{
  ℕ, Text, Bytes, true, Option, some, List, [], ◌∷◌, ◌++◌, text_eq_refl, Bool-cases, any, find,
  text_eq, ok, err, ◌≡◌, ◌⊎◌, inl, inr, refl, arith, ap, ◌∙◌,
}
use rust_local_storage_cdn.Errors.{StorageError, StorageResult}
use rust_local_storage_cdn.Models.{StoredFile}
use rust_local_storage_cdn.World.{World, Env, BucketRow}
use rust_local_storage_cdn.World.Actions.{◌>>◌, pure}
use rust_local_storage_cdn.Keys.{get_key}
use rust_local_storage_cdn.Database.{upsert, save_file, is_at, get_file_by_hash}
use rust_local_storage_cdn.Cache.{set_file_metadata, backend_set, set_file_content}
use rust_local_storage_cdn.Storage.Encode.{
  StorageManager, StoreOptions, encrypt_stage, compress_stage,
}
use rust_local_storage_cdn.Storage.Disk.{unlink, write_file_atomic, write_file, rename}
use rust_local_storage_cdn.Storage.Buckets.{
  ensure_bucket_exists, create_bucket, insert_bucket_row, has_name,
}
use rust_local_storage_cdn.Storage.Store.{
  store_new, find_duplicate, write_bytes, save_or_cleanup, cleanup, warm_cache, stored_row,
}
use rust_local_storage_cdn.Machine.Frames.{SameTables, SameTables-trans, settle}
use rust_local_storage_cdn.Storage.Paths.{get_file_path}

-- A bucket's row was added, or not.
abbrev pub MayGrow : Text → World → World → Type 0
MayGrow bucket w w' =
    (w'.buckets ≡ w.buckets) ⊎ (w'.buckets ≡ insert_bucket_row bucket w.now w.buckets)

-- What a store leaves in the table of files: a row of the key with the hash, which deduplication found
-- or which was saved; a failed store leaves the table as it was.
abbrev pub Saved : Text → Text → Text → List StoredFile → StorageResult StoredFile → World → Type 0
Saved bucket key hash files (err e) w' = w'.files ≡ files
Saved bucket key hash files (ok file) w' =
    ((file.bucket ≡ bucket)
      × (file.key ≡ key)
      × (file.hash_blake3 ≡ hash)
      × (w'.files ≡ upsert file files))
    ⊎ ((is_at bucket key file ≡ true)
        × (find (λ row. text_eq row.hash_blake3 hash) files ≡ some file)
        × (w'.files ≡ files))

any-snoc :
    (bucket : Text) (row : BucketRow) (rows : List BucketRow)
    → has_name bucket row ≡ true
    → any (has_name bucket) (rows ++ row ∷ []) ≡ true
any-snoc bucket row [] h = rw h
any-snoc bucket row (r ∷ rows) h = ground (arith, any-snoc bucket row rows h)

insert-has_name :
    (bucket : Text) (now : ℕ) (rows : List BucketRow)
    → any (has_name bucket) (insert_bucket_row bucket now rows) ≡ true
unfolding insert_bucket_row
insert-has_name bucket now rows = elim (Bool-cases (any (has_name bucket) rows)) [
  | inl here ↦ rw (here, here)
  | inr new ↦ rw new (
      any-snoc bucket (record { name = bucket; created_at = now; is_active = true }) rows
        (text_eq_refl bucket))
]

module _ (env : Env) (m : StorageManager) (bucket key : Text) where
  pub create_bucket-MayGrow :
      (base : Text) (w : World)
      → ((create_bucket env base bucket w).1.files ≡ w.files)
        × MayGrow bucket w (create_bucket env base bucket w).1
  unfolding create_bucket
  create_bucket-MayGrow base w = ground arith

  pub ensure-MayGrow :
      (base : Text) (w : World)
      → ((ensure_bucket_exists env base bucket w).1.files ≡ w.files)
        × MayGrow bucket w (ensure_bucket_exists env base bucket w).1
  unfolding ensure_bucket_exists
  ensure-MayGrow base w = ground (arith, create_bucket-MayGrow base w)

  pub ensure-has_name :
      (base : Text) (w : World)
      → (ensure_bucket_exists env base bucket w).0 ≡ ok tt
      → any (has_name bucket) (ensure_bucket_exists env base bucket w).1.buckets ≡ true
  unfolding ensure_bucket_exists create_bucket
  ensure-has_name base w h = ground (arith, insert-has_name bucket w.now w.buckets)

  pub encrypt_stage-SameTables :
      (opts : StoreOptions) (content : Bytes) (w : World)
      → SameTables w (encrypt_stage env m opts content w).1
  unfolding encrypt_stage get_key
  encrypt_stage-SameTables opts content w = ground arith

  write_bytes-SameTables :
      (path : Text) (stored : Bytes) (w : World)
      → SameTables w (write_bytes env m bucket key path stored w).1
  unfolding write_bytes write_file_atomic write_file rename
  write_bytes-SameTables path stored w = ground arith

  pub find_duplicate-SameTables :
      (hash : Text) (w : World) → SameTables w (find_duplicate env m bucket key hash w).1
  unfolding find_duplicate get_file_by_hash
  find_duplicate-SameTables hash w = ground arith

  pub find_duplicate-find :
      (hash : Text) (file : StoredFile) (w : World)
      → (find_duplicate env m bucket key hash w).0 ≡ ok (some file)
      → find (λ row. text_eq row.hash_blake3 hash) w.files ≡ some file
  unfolding find_duplicate get_file_by_hash
  find_duplicate-find hash file w h = ground arith

  warm_cache-SameTables :
      (file : StoredFile) (stored : Bytes) (w : World)
      → ((warm_cache env m bucket key file stored w).0 ≡ ok tt)
        × SameTables w (warm_cache env m bucket key file stored w).1
  unfolding warm_cache set_file_metadata set_file_content backend_set
  warm_cache-SameTables file stored w = ground arith

  save_or_cleanup-Saved :
      (path : Text) (file : StoredFile) (w : World)
      → (((save_or_cleanup env m bucket key path file w).0 ≡ ok tt)
            × ((save_or_cleanup env m bucket key path file w).1.files ≡ upsert file w.files)
          ⊎ ((e : StorageError) × ((save_or_cleanup env m bucket key path file w).0 ≡ err e)
              × ((save_or_cleanup env m bucket key path file w).1.files ≡ w.files)))
        × ((save_or_cleanup env m bucket key path file w).1.buckets ≡ w.buckets)
  unfolding save_or_cleanup cleanup save_file unlink
  save_or_cleanup-Saved path file w = ground arith

  -- The tables after the part of a store that follows the check of its bucket.
  abbrev pub Stored : Text → World → StorageResult StoredFile → World → Type 0
  Stored hash w r w' = Saved bucket key hash w.files r w' × (w'.buckets ≡ w.buckets)

  finish-Stored :
      (path hash : Text) (stored : Bytes) (file : StoredFile) (w w1 : World)
      → SameTables w w1
      → file.bucket ≡ bucket
      → file.key ≡ key
      → file.hash_blake3 ≡ hash
      → let r =
          (save_or_cleanup env m bucket key path file
              >> (warm_cache env m bucket key file stored >> pure file))
            w1 in
        Stored hash w r.0 r.1
  finish-Stored path hash stored file w w1 (f, b) at_bucket at_key has_hash =
      let (saved, kept) = save_or_cleanup-Saved path file w1 in
      elim saved [
        | inl (done, put_there) ↦
            let (warmed, k) =
              warm_cache-SameTables file stored (save_or_cleanup env m bucket key path file w1).1 in
            rw (done, warmed)
              (
                inl (at_bucket, at_key, has_hash, k.0 ∙ put_there ∙ ap (upsert file) f),
                k.1 ∙ kept ∙ b,
              )
        | inr (e, failed, same) ↦ rw failed (same ∙ f, kept ∙ b)
      ]

  pub store_new-Stored :
      (content : Bytes) (content_type : Option Text) (opts : StoreOptions) (w : World)
      → Stored
          (env.blake3 content)
          w
          (store_new env m bucket key content content_type opts w).0
          (store_new env m bucket key content content_type opts w).1
  unfolding store_new stored_row
  store_new-Stored content content_type opts w =
      let squeezed = compress_stage env m opts content in
      let path = get_file_path m.config.storage.path bucket key in
      let w1 = (encrypt_stage env m opts squeezed.0 w).1 in
      let k1 = encrypt_stage-SameTables opts squeezed.0 w in
      settle (Stored (env.blake3 content) w) (encrypt_stage env m opts squeezed.0 w).0 _ w1
        (λ e bad. k1)
        (λ out done.
          let k2 =
            SameTables-trans w w1 (write_bytes env m bucket key path out.0 w1).1 k1
              (write_bytes-SameTables path out.0 w1) in
          settle (Stored (env.blake3 content) w) (write_bytes env m bucket key path out.0 w1).0 _
            (write_bytes env m bucket key path out.0 w1).1 (λ e bad. k2)
            (λ u wrote. finish-Stored path (env.blake3 content) out.0 _ w _ k2 refl refl refl))
