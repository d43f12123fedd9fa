-- ===== src/Tests/ReadWitnesses.antt =====
-- The theorems about reading at concrete inputs.
use rust_local_storage_cdn.Models.{StoredFile}
use rust_local_storage_cdn.Prelude.{inl, List}
use rust_local_storage_cdn.Storage.Encode.{default_options}
use rust_local_storage_cdn.Storage.Fetch.RoundTrip.{get_file-store_file}
use rust_local_storage_cdn.Storage.Fetch.Expiry.{IsRow, IsLive, get_file-IsLive}
use rust_local_storage_cdn.Tests.StoreWitnesses.{upload, row_in, store_sample}
use rust_local_storage_cdn.Tests.Samples.{calm, sound, content, empty_world}
use rust_local_storage_cdn.Prelude.{
  ◌≤◌, ◌<◌, Text, str, true, none, some, text_eq, parse_u64, ok, ◌≡◌, ◌↔◌, ◌⊎◌, refl, strip_prefix,
  split_once, contains,
}
use rust_local_storage_cdn.Storage.Fetch.{get_file}
use rust_local_storage_cdn.Handlers.Range.{parse_range_header}
use rust_local_storage_cdn.Handlers.Range.{parse_range_header-bounds}
use rust_local_storage_cdn.Handlers.Download.{download_is_authorized}
use rust_local_storage_cdn.Handlers.Download.Laws.{IsOutside, download_is_authorized_iff}
use rust_local_storage_cdn.Tests.Samples.{env, manager}

served :
    (get_file env manager (str "b") (str "k") (record upload.1 { now = 90 })).0
    ≡ ok (content, some (row_in upload.0).content_type)
served =
    get_file-store_file env calm sound manager (str "b") (str "k") content none default_options
      (row_in upload.0) empty_world upload.1 90 refl store_sample.0 (λ yes. refl)
      (inl store_sample.1) store_sample.2

get_file-IsLive_example :
    (file : StoredFile) × IsRow env manager (str "b") (str "k") (record upload.1 { now = 90 }) file
    × IsLive file.expires_at 90
get_file-IsLive_example =
    get_file-IsLive env manager (str "b") (str "k") (record upload.1 { now = 90 })
      (content, some (row_in upload.0).content_type) served

range_sample : parse_range_header (str "bytes=-3") 5 ≡ some (2, 4)
unfolding parse_range_header strip_prefix split_once contains text_eq parse_u64
range_sample = refl

parse_range_header-bounds_example : (2 ≤ 4) × (4 < 5)
parse_range_header-bounds_example = parse_range_header-bounds (str "bytes=-3") 5 2 4 range_sample

download_is_authorized_iff_example :
    (download_is_authorized (some (str "t")) none none none ≡ true) ↔ (
      (some (str "t") ≡ none)
      ⊎ ((list : List Text) × (name : Text) × (none ≡ some list)
          × (none ≡ some name)
          × IsOutside name list)
      ⊎ ((token : Text) × (some (str "t") ≡ some token) × (none ≡ some token)))
download_is_authorized_iff_example = download_is_authorized_iff (some (str "t")) none none none
