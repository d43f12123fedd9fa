-- ===== src/Tests/ServeWitnesses.antt =====
-- An upload that is read over HTTP, at concrete inputs.
use rust_local_storage_cdn.Prelude.{
  starts_with, pos, ◌≡◌, true, false, none, some, str, refl, text_eq, ends_with, trim, split_once,
  ok,
}
use rust_local_storage_cdn.Models.{FileInfo, file_info}
use rust_local_storage_cdn.Compression.{compress, compress_zstd}
use rust_local_storage_cdn.Crypto.{from_str, encrypt, encrypt_cipher, seal_with}
use rust_local_storage_cdn.Database.{save_file, get_file_by_hash}
use rust_local_storage_cdn.Cache.{set_file_metadata, set_file_content, backend_set}
use rust_local_storage_cdn.Storage.Disk.{write_file_atomic, write_file, rename}
use rust_local_storage_cdn.Storage.Encode.{compress_stage, encrypt_stage}
use rust_local_storage_cdn.Storage.Buckets.{ensure_bucket_exists, create_bucket}
use rust_local_storage_cdn.Storage.Store.{
  store_file, store_or_reuse, store_new, find_duplicate, stored_row, write_bytes, save_or_cleanup,
  cleanup, warm_cache,
}
use rust_local_storage_cdn.Storage.Fetch.{has_expired}
use rust_local_storage_cdn.Handlers.Download.{
  full_content, require_download_token, download_is_authorized,
}
use rust_local_storage_cdn.Handlers.Upload.{
  upload_file, checked_upload, check_length, read_body, expiry,
}
use rust_local_storage_cdn.Handlers.Filename.{
  header_text, split_text, unquoted, decoded_name, upload_with_header,
  extract_filename_from_content_disposition,
}
use rust_local_storage_cdn.App.{Call, Reply, serve, dispatch, is_limited, is_mounted}
use rust_local_storage_cdn.App.RoundTrip.{fetch-upload}
use rust_local_storage_cdn.Tests.Samples.{calm, sound, content, empty_world, row_a}
use rust_local_storage_cdn.Tests.S3Witnesses.{open_state}
use rust_local_storage_cdn.Tests.AppWitnesses.{crates, uploading}
use rust_local_storage_cdn.World.{World}

abbrev info_in : Reply → FileInfo
info_in (Reply.file_info info) = info
info_in reply = file_info row_a

abbrev sent : Reply × World
sent = serve crates open_state false uploading empty_world

abbrev shown : FileInfo
shown = info_in sent.0

upload_sample :
    (sent ≡ (Reply.file_info shown, sent.1))
    × (has_expired shown.expires_at 60 ≡ false)
    × (extract_filename_from_content_disposition crates.decoders
          (some (str "attachment; filename=k"))
        ≡ some (str "k"))
    × (ends_with (str "/info") (str "k") ≡ false)
unfolding serve dispatch is_limited is_mounted upload_with_header upload_file checked_upload
    check_length read_body expiry file_info extract_filename_from_content_disposition store_file
    store_or_reuse store_new find_duplicate stored_row write_bytes save_or_cleanup cleanup
    warm_cache compress_stage encrypt_stage ensure_bucket_exists create_bucket compress
    compress_zstd from_str encrypt encrypt_cipher seal_with save_file get_file_by_hash
    write_file_atomic write_file rename text_eq set_file_metadata set_file_content backend_set
    header_text split_text unquoted decoded_name starts_with trim split_once ends_with
upload_sample = (refl, refl, refl, refl)

allowed_sample : require_download_token open_state (some (str "d")) none ≡ ok tt
unfolding require_download_token download_is_authorized
allowed_sample = refl

fetch-upload_example :
    (shown.content_type ≡ str "application/octet-stream")
    × ((serve crates open_state true
          (Call.fetch (str "d") (str "k") none none)
          (record sent.1 { now = 60 })).0
        ≡ Reply.content (full_content (some shown.content_type) content))
unfolding text_eq
fetch-upload_example =
    fetch-upload crates open_state (str "d") (str "k") calm sound false
      (record {
        compress = none;
        encrypt = none;
        compression_algorithm = none;
        compression_level = none;
        encryption_key_id = none;
        ttl_seconds = some (pos 10);
      })
      (some (str "attachment; filename=k")) none none content none shown empty_world sent.1 60
      upload_sample.2 upload_sample.3 refl refl refl upload_sample.0 upload_sample.1 allowed_sample
      refl
