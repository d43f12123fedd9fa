-- ===== src/Tests/BucketWitnesses.antt =====
-- The theorems about buckets and failing stores at concrete inputs.
use rust_local_storage_cdn.Prelude.{
  some, Text, str, true, false, none, [], ◌∷◌, text_eq, text_eq_iff, arith, starts_with, ends_with,
  split_once, trim_end_matches, if◌then◌else◌, ok, err, ◌≡◌, ◌≢◌, refl,
}
use rust_local_storage_cdn.World.{World}
use rust_local_storage_cdn.Database.{lookup}
use rust_local_storage_cdn.Storage.Paths.{get_file_path, temp_path, path_join, split_dir, file_stem}
use rust_local_storage_cdn.Storage.Buckets.{
  delete_bucket, delete_bucket_rows, cascade, release_all, references,
}
use rust_local_storage_cdn.Storage.Buckets.Laws.{delete_bucket-lookup}
use rust_local_storage_cdn.Storage.Remove.{release}
use rust_local_storage_cdn.Storage.Disk.{unlink, remove_tree}
use rust_local_storage_cdn.Cache.{invalidate_file}
use rust_local_storage_cdn.Storage.Encode.{default_options, encrypt_stage, StoreOptions}
use rust_local_storage_cdn.Crypto.{from_str}
use rust_local_storage_cdn.Keys.{get_key, unknown_key}
use rust_local_storage_cdn.Storage.Store.{store_new}
use rust_local_storage_cdn.Storage.Store.Faults.{store_new-frame, store_new-err}
use rust_local_storage_cdn.Tests.Samples.{env, manager, content, shared_world}

abbrev bucket_world : World
bucket_world = record shared_world {
  buckets = record { name = str "b"; created_at = 1; is_active = true } ∷ [];
}

bucket_sample : (delete_bucket env (str "/s") (str "b") bucket_world).0 ≡ ok tt
unfolding delete_bucket delete_bucket_rows cascade release_all references release unlink
    invalidate_file remove_tree text_eq
bucket_sample = refl

delete_bucket-lookup_example :
    lookup (str "b") (str "a") (delete_bucket env (str "/s") (str "b") bucket_world).1.files
    ≡ (if text_eq (str "b") (str "b") then none else lookup (str "b") (str "a") bucket_world.files)
delete_bucket-lookup_example =
    delete_bucket-lookup env (str "/s") (str "b") bucket_world (str "b") (str "a") bucket_sample

test-ne : (a b : Text) → text_eq a b ≡ false → a ≢ b
test-ne a b h = ground (arith, text_eq_iff a b)

paths_apart :
    (text_eq (get_file_path (str "/s") (str "b") (str "k")) (str "/s/x") ≡ false)
    × (text_eq (temp_path (get_file_path (str "/s") (str "b") (str "k"))) (str "/s/x") ≡ false)
unfolding get_file_path path_join temp_path split_dir file_stem starts_with ends_with split_once
    trim_end_matches text_eq
paths_apart = (refl, refl)

store_new-frame_example :
    (store_new env manager (str "b") (str "k") content none default_options shared_world).1.disk
      (str "/s/x")
    ≡ shared_world.disk (str "/s/x")
store_new-frame_example =
    store_new-frame env manager (str "b") (str "k") content none default_options shared_world
      (str "/s/x") (test-ne _ _ paths_apart.0) (test-ne _ _ paths_apart.1)

-- An upload under a key that is not there fails.
abbrev missing_key : StoreOptions
missing_key = record default_options { encryption_key_id = some (str "none") }

fails :
    (store_new env manager (str "b") (str "k") content none missing_key shared_world).0
    ≡ err (unknown_key (str "none"))
unfolding store_new encrypt_stage from_str get_key text_eq
fails = refl

store_new-err_example :
    (store_new env manager (str "b") (str "k") content none missing_key shared_world).1.files
    ≡ shared_world.files
store_new-err_example =
    store_new-err env manager (str "b") (str "k") content none missing_key shared_world
      (unknown_key (str "none")) fails
