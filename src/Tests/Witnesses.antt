-- ===== src/Tests/Witnesses.antt =====
-- The theorems at concrete inputs.
use rust_local_storage_cdn.Prelude.{
  Bytes, str, true, false, ◌&&◌, none, some, [], ◌∷◌, take, drop, text_eq, if◌then◌else◌, ok, ◌≡◌,
  refl, arith,
}
use rust_local_storage_cdn.Compression.{compress, compress_zstd}
use rust_local_storage_cdn.Compression.Range.{decompress_range}
use rust_local_storage_cdn.Compression.RoundTrip.{decompress_range-compress}
use rust_local_storage_cdn.Database.{lookup, without, is_expired}
use rust_local_storage_cdn.Database.Laws.{IsUnique}
use rust_local_storage_cdn.Storage.Remove.{
  delete_file, sweep_expired_files, delete_row, release, other_references,
}
use rust_local_storage_cdn.Storage.Remove.Laws.{delete_file-lookup, delete_file-keeps_bytes}
use rust_local_storage_cdn.Storage.Remove.Sweep.{sweep-keeps_unexpired, sweep-removes_expired}
use rust_local_storage_cdn.Storage.Disk.{unlink}
use rust_local_storage_cdn.Cache.{invalidate_file}
use rust_local_storage_cdn.Tests.Samples.{
  codec, codec-IsCodec, env, calm, config, content, row_a, row_c, shared_world,
}

abbrev squeezed : Bytes
squeezed = 2 ∷ 0 ∷ 7 ∷ 8 ∷ []

compress_sample : compress codec config.compression content ≡ ok squeezed
unfolding compress compress_zstd text_eq
compress_sample = refl

decompress_range-compress_example :
    decompress_range codec squeezed 3 2 ≡ ok (some (take 2 (drop 3 content)))
decompress_range-compress_example =
    decompress_range-compress codec codec-IsCodec config.compression content squeezed 3 2
      compress_sample (omega arith)

shared-IsUnique : IsUnique shared_world.files
unfolding lookup text_eq
shared-IsUnique = (refl, (refl, tt))

lookup_a : lookup (str "b") (str "a") shared_world.files ≡ some row_a
unfolding lookup text_eq
lookup_a = refl

lookup_c : lookup (str "b") (str "c") shared_world.files ≡ some row_c
unfolding lookup text_eq
lookup_c = refl

delete_sample : (delete_file env (str "b") (str "a") shared_world).0 ≡ ok tt
unfolding delete_file delete_row release other_references lookup text_eq unlink invalidate_file
delete_sample = refl

delete_file-lookup_example :
    lookup (str "b") (str "c") (delete_file env (str "b") (str "a") shared_world).1.files ≡ (
      if text_eq (str "b") (str "b") && text_eq (str "a") (str "c")
      then none
      else lookup (str "b") (str "c") shared_world.files)
delete_file-lookup_example =
    delete_file-lookup env (str "b") (str "a") shared_world (str "b") (str "c") delete_sample

after_delete :
    lookup (str "b") (str "c") (delete_file env (str "b") (str "a") shared_world).1.files
    ≡ some row_c
unfolding delete_file delete_row release other_references lookup without text_eq unlink
    invalidate_file
after_delete = refl

delete_file-keeps_bytes_example :
    (delete_file env (str "b") (str "a") shared_world).1.disk row_c.file_path
    ≡ shared_world.disk row_c.file_path
delete_file-keeps_bytes_example =
    delete_file-keeps_bytes env (str "b") (str "a") shared_world (str "b") (str "c") row_c
      after_delete (λ found h one. one)

fresh_a : is_expired shared_world.now row_a ≡ false
unfolding is_expired
fresh_a = refl

old_c : is_expired shared_world.now row_c ≡ true
unfolding is_expired
old_c = refl

sweep-keeps_unexpired_example :
    lookup (str "b") (str "a") (sweep_expired_files env shared_world).1.files ≡ some row_a
sweep-keeps_unexpired_example =
    sweep-keeps_unexpired env shared_world (str "b") (str "a") row_a shared-IsUnique lookup_a
      fresh_a

sweep-removes_expired_example :
    lookup (str "b") (str "c") (sweep_expired_files env shared_world).1.files ≡ none
sweep-removes_expired_example =
    sweep-removes_expired env calm shared_world (str "b") (str "c") row_c shared-IsUnique lookup_c
      old_c
