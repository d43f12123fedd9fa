-- ===== src/Tests/StoreWitnesses.antt =====
-- The theorems about storing and reading at concrete inputs.
use rust_local_storage_cdn.Prelude.{
  take, drop, length, ◌+◌, ◌-◌, arith, text_eq, Bytes, Bool, true, false, str, none, some, [], ◌∷◌,
  ◌++◌, ltb, ok, err, ◌≡◌, refl, inl,
}
use rust_local_storage_cdn.Errors.{StorageResult}
use rust_local_storage_cdn.World.{World}
use rust_local_storage_cdn.Models.{StoredFile}
use rust_local_storage_cdn.Compression.{compress, compress_zstd}
use rust_local_storage_cdn.Crypto.{from_str, encrypt, encrypt_cipher, seal_with}
use rust_local_storage_cdn.Cache.{set_file_metadata, set_file_content, backend_set, max_cache_size}
use rust_local_storage_cdn.Database.{save_file, get_file_by_hash}
use rust_local_storage_cdn.Storage.Disk.{write_file, rename, write_file_atomic}
use rust_local_storage_cdn.Storage.Encode.{
  compress_stage, decode_content, encrypt_stage, default_options,
}
use rust_local_storage_cdn.Storage.Buckets.{ensure_bucket_exists, create_bucket}
use rust_local_storage_cdn.Storage.Store.{
  store_file, store_or_reuse, store_new, find_duplicate, stored_row, write_bytes, save_or_cleanup,
  cleanup, warm_cache,
}
use rust_local_storage_cdn.Storage.Fetch.{get_file, has_expired}
use rust_local_storage_cdn.Storage.Encode.Laws.{decode_content-stages}
use rust_local_storage_cdn.Storage.Fetch.RoundTrip.{get_file-store_file}
use rust_local_storage_cdn.Storage.Fetch.{get_compressed_file_range}
use rust_local_storage_cdn.Storage.Fetch.RangeRead.{get_compressed_file_range-store_file}
use rust_local_storage_cdn.Storage.Encode.{StoreOptions}
use rust_local_storage_cdn.Tests.Samples.{env, calm, sound, manager, content, empty_world, row_a}

abbrev pub row_in : StorageResult StoredFile → StoredFile
row_in (ok file) = file
row_in (err e) = row_a

abbrev pub upload : StorageResult StoredFile × World
upload = store_file env manager (str "b") (str "k") content none default_options empty_world

pub store_sample :
    (upload ≡ (ok (row_in upload.0), upload.1))
    × (ltb max_cache_size (row_in upload.0).file_size ≡ false)
    × (has_expired (row_in upload.0).expires_at 90 ≡ false)
unfolding store_file store_or_reuse store_new find_duplicate stored_row write_bytes save_or_cleanup
    cleanup warm_cache compress_stage encrypt_stage ensure_bucket_exists create_bucket compress
    compress_zstd from_str encrypt encrypt_cipher seal_with save_file get_file_by_hash
    write_file_atomic write_file rename text_eq set_file_metadata set_file_content backend_set
store_sample = (refl, refl, refl)

get_file-store_file_example :
    (get_file env manager (str "b") (str "k") (record upload.1 { now = 90 })).0
    ≡ ok (content, some (row_in upload.0).content_type)
get_file-store_file_example =
    get_file-store_file env calm sound manager (str "b") (str "k") content none default_options
      (row_in upload.0) empty_world upload.1 90 refl store_sample.0 (λ yes. refl)
      (inl store_sample.1) store_sample.2

abbrev stages : Bytes × Bool
stages = compress_stage env manager default_options content

abbrev sealing : StorageResult (Bytes × Bool) × World
sealing = encrypt_stage env manager default_options stages.0 empty_world

abbrev sealed : Bytes
sealed = env.nonce 0 ++ (42 ∷ 2 ∷ 0 ∷ 7 ∷ 8 ∷ [])

stages_sample : sealing ≡ (ok (sealed, true), sealing.1)
unfolding compress_stage encrypt_stage compress compress_zstd from_str encrypt encrypt_cipher
    seal_with text_eq
stages_sample = refl

abbrev row_sealed : StoredFile
row_sealed = record row_a {
  is_compressed = some stages.1;
  is_encrypted = some true;
  encryption_algorithm = some (str "aes-gcm");
}

decode_content-stages_example :
    decode_content env manager row_sealed sealed empty_world ≡ (ok content, empty_world)
decode_content-stages_example =
    decode_content-stages env calm sound manager default_options content stages.0 sealed stages.1
      true row_sealed empty_world sealing.1 empty_world refl stages_sample refl (λ yes. refl) refl
      refl refl (λ yes. refl)

abbrev open_options : StoreOptions
open_options = record default_options { encrypt = some false }

abbrev plain_upload : StorageResult StoredFile × World
plain_upload = store_file env manager (str "b") (str "k") content none open_options empty_world

plain_sample :
    (plain_upload ≡ (ok (row_in plain_upload.0), plain_upload.1))
    × ((row_in plain_upload.0).is_compressed ≡ some true)
    × ((row_in plain_upload.0).is_encrypted ≡ some false)
unfolding store_file store_or_reuse store_new find_duplicate stored_row write_bytes save_or_cleanup
    cleanup warm_cache compress_stage encrypt_stage ensure_bucket_exists create_bucket compress
    compress_zstd from_str encrypt encrypt_cipher seal_with save_file get_file_by_hash
    write_file_atomic write_file rename text_eq set_file_metadata set_file_content backend_set
plain_sample = (refl, refl, refl)

get_compressed_file_range-store_file_example :
    (get_compressed_file_range env manager
      (str "b")
      (str "k")
      3
      4
      (record plain_upload.1 { now = 90 })).0
    ≡ ok (
        some
          (take (4 - 3 + 1) (drop 3 content), (row_in plain_upload.0).content_type, length content))
get_compressed_file_range-store_file_example =
    get_compressed_file_range-store_file env calm sound manager (str "b") (str "k") content none
      open_options (row_in plain_upload.0) empty_world plain_upload.1 90 3 4 refl plain_sample.0
      plain_sample.1 plain_sample.2 (omega arith) (omega arith)
