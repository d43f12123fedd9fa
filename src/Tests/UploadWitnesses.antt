-- ===== src/Tests/UploadWitnesses.antt =====
-- The theorems about uploads at concrete inputs.
use rust_local_storage_cdn.Prelude.{
  ◌⊎◌, inl, inr, ◌≤◌, ◌<◌, Text, Bytes, str, false, none, some, [], length, pos, Result, ok, err,
  ◌≡◌, refl,
}
use rust_local_storage_cdn.Errors.{StorageError, status}
use rust_local_storage_cdn.Models.{StoredFile}
use rust_local_storage_cdn.World.{World}
use rust_local_storage_cdn.Storage.Encode.{StoreOptions, default_options}
use rust_local_storage_cdn.Storage.Store.{store_file}
use rust_local_storage_cdn.Storage.Store.New.{store_file-succeeds}
use rust_local_storage_cdn.Handlers.Upload.{
  UploadQuery, check_length, read_body, expiry, checked_upload, upload_file,
}
use rust_local_storage_cdn.Handlers.Upload.Laws.{
  IsFuture, checked_upload-bounds, upload_file-refused,
}
use rust_local_storage_cdn.Tests.Samples.{env, calm, sound, manager, content, empty_world}

abbrev open_options : StoreOptions
open_options = record default_options { encrypt = some false }

store_file-succeeds_example :
    (file : StoredFile) × (w' : World) × (store_file env manager
        (str "b")
        (str "k")
        content
        none
        open_options
        empty_world
      ≡ (ok file, w'))
store_file-succeeds_example =
    store_file-succeeds env calm sound manager (str "b") (str "k") content none open_options
      empty_world refl refl

abbrev query : UploadQuery
query = record {
  compress = none;
  encrypt = none;
  compression_algorithm = none;
  compression_level = none;
  encryption_key_id = none;
  ttl_seconds = some (pos 5);
}

abbrev body : Result Text Bytes
body = ok content

passes : checked_upload 100 50 query none body ≡ ok (content, some 5000050)
unfolding checked_upload check_length read_body expiry
passes = refl

checked_upload-bounds_example :
    (body ≡ ok content) × (0 < length content) × (length content ≤ 100) × IsFuture 50 (some 5000050)
checked_upload-bounds_example =
    checked_upload-bounds 100 50 query none body content (some 5000050) passes

abbrev nothing : Result Text Bytes
nothing = ok []

upload_file-refused_example :
    (e : StorageError) × (upload_file env manager (str "b") query none none none nothing empty_world
      ≡ (err e, empty_world))
    × ((status e ≡ 400) ⊎ (status e ≡ 413))
upload_file-refused_example =
    upload_file-refused env manager (str "b") query none none none nothing empty_world
      (inr (inr (inl ([], refl, inl refl))))
