-- ===== src/App/Keeps.antt =====
-- Which actions of the storage layer keep the tables consistent, and how they are put together.
use rust_local_storage_cdn.Prelude.{
  ℕ, ◌+◌, ◌-◌, Text, Bytes, Option, none, some, Result, ok, err, inl, inr, arith,
}
use rust_local_storage_cdn.Errors.{StorageResult}
use rust_local_storage_cdn.Models.{StoredFile}
use rust_local_storage_cdn.World.{World, Env, Fault}
use rust_local_storage_cdn.World.Actions.{Action, lift, continue, ◌>>=◌}
use rust_local_storage_cdn.Compression.Range.{decompress_range}
use rust_local_storage_cdn.Database.{update_access}
use rust_local_storage_cdn.Storage.Encode.{StorageManager, StoreOptions}
use rust_local_storage_cdn.Storage.Disk.{read_disk}
use rust_local_storage_cdn.Storage.Store.{store_file}
use rust_local_storage_cdn.Storage.Remove.{delete_file}
use rust_local_storage_cdn.Storage.Buckets.{create_bucket, delete_bucket}
use rust_local_storage_cdn.Storage.Fetch.{
  get_file, get_file_info, load_row, read_span, plain_span, get_file_range_if_plain, finish_range,
  compressed_span, clamped_end, bytes_or_error, get_compressed_file_range,
}
use rust_local_storage_cdn.Machine.{IsConsistent}
use rust_local_storage_cdn.Machine.Tables.{touch-IsUnique, touch-InBuckets}
use rust_local_storage_cdn.Machine.Frames.{
  SameTables, load_row-SameTables, update_access-files, delete_file-MayLose, get_file-ReadTables,
  get_file_info-ReadTables,
}
use rust_local_storage_cdn.Machine.Frames.Saved.{store_file-StoreOutcome}
use rust_local_storage_cdn.Machine.Invariant.{
  store-IsConsistent, create-IsConsistent, drop-IsConsistent, lose-IsConsistent,
  reading-IsConsistent,
}

abbrev pub Keeps : {A : Type 0} → Action A → Type 0
Keeps m = (w : World) → IsConsistent w → IsConsistent (m w).1

same-IsConsistent : (w w' : World) → SameTables w w' → IsConsistent w → IsConsistent w'
same-IsConsistent w w' (f, b) (u, i) = rw (f, b) (u, i)

-- An action that leaves the tables alone.
pub still-Keeps : {A : Type 0} (m : Action A) → ((w : World) → SameTables w (m w).1) → Keeps m
still-Keeps m still w c = same-IsConsistent w (m w).1 (still w) c

continued :
    {A B : Type 0} (r : StorageResult A) (f : A → Action B) (w : World)
    → ((a : A) → Keeps (f a))
    → IsConsistent w
    → IsConsistent (continue r f w).1
continued (ok a) f w rest c = rest a w c
continued (err e) f w rest c = c

pub bind-Keeps :
    {A B : Type 0} (m : Action A) (f : A → Action B)
    → Keeps m
    → ((a : A) → Keeps (f a))
    → Keeps (m >>= f)
bind-Keeps m f first rest w c = continued (m w).0 f (m w).1 rest (first w c)

module _ (env : Env) (m : StorageManager) (bucket key : Text) where
  pub store-Keeps :
      (content : Bytes) (content_type : Option Text) (opts : StoreOptions)
      → Keeps (store_file env m bucket key content content_type opts)
  store-Keeps content content_type opts w c =
      store-IsConsistent env m bucket key (env.blake3 content)
        (store_file env m bucket key content content_type opts w).0 w
        (store_file env m bucket key content content_type opts w).1
        (store_file-StoreOutcome env m bucket key content content_type opts w) c

  pub get-Keeps : Keeps (get_file env m bucket key)
  get-Keeps w c =
      reading-IsConsistent bucket key w (get_file env m bucket key w).1
        (get_file env m bucket key w).0 (get_file-ReadTables env m bucket key w) c

  pub info-Keeps : Keeps (get_file_info env m bucket key)
  info-Keeps w c =
      reading-IsConsistent bucket key w (get_file_info env m bucket key w).1
        (get_file_info env m bucket key w).0 (get_file_info-ReadTables env m bucket key w) c

  pub delete-Keeps : Keeps (delete_file env bucket key)
  delete-Keeps w c =
      lose-IsConsistent bucket key w (delete_file env bucket key w).1
        (delete_file-MayLose env m bucket key w) c

  pub create-Keeps : (base : Text) → Keeps (create_bucket env base bucket)
  create-Keeps base w c = create-IsConsistent env m bucket key base w c

  pub drop-Keeps : (base : Text) → Keeps (delete_bucket env base bucket)
  drop-Keeps base w c = drop-IsConsistent env m bucket key base w c

  touch-Keeps : (id : ℕ) → Keeps (update_access env id)
  touch-Keeps id w (u, i) =
      let (files, buckets) = update_access-files env m bucket key id w in
      elim files [
        | inl same ↦ rw (same, buckets) (u, i)
        | inr touched ↦
            rw (touched, buckets)
              (touch-IsUnique id w.now w.files u, touch-InBuckets id w.now w.files w.buckets i)
      ]

  plain_span-Keeps :
      (file : StoredFile) (start end : ℕ) → Keeps (plain_span env m bucket key file start end)
  unfolding plain_span read_span read_disk
  plain_span-Keeps file start end w c = ground (arith, touch-Keeps file.id w)

  finish-Keeps :
      (file : StoredFile) (span : Option Bytes) → Keeps (finish_range env m bucket key file span)
  unfolding finish_range
  finish-Keeps file none w c = c
  finish-Keeps file (some span) w c = touch-Keeps file.id w c

  compressed_span-Keeps :
      (file : StoredFile) (start end : ℕ) → Keeps (compressed_span env m bucket key file start end)
  unfolding compressed_span read_disk
  compressed_span-Keeps file start end =
      let decode = λ (squeezed : Bytes). lift (
        decompress_range env.codec squeezed start
          (clamped_end env m bucket key file.original_size end - start + 1)) in
      let finish = λ (squeezed : Bytes). decode squeezed >>= finish_range env m bucket key file in
      bind-Keeps (read_disk env file.file_path)
        (λ outcome. bytes_or_error env m bucket key outcome >>= finish) (λ w c. c)
        (λ outcome.
          bind-Keeps (bytes_or_error env m bucket key outcome) finish (bytes-Keeps outcome)
            (λ squeezed.
              bind-Keeps (decode squeezed) (finish_range env m bucket key file) (λ w c. c)
                (finish-Keeps file)))
    where
      bytes-Keeps : (outcome : Result Fault Bytes) → Keeps (bytes_or_error env m bucket key outcome)
      bytes-Keeps (ok content) w c = c
      bytes-Keeps (err f) w c = c

  pub plain_range-Keeps :
      (start end : ℕ) → Keeps (get_file_range_if_plain env m bucket key start end)
  unfolding get_file_range_if_plain
  plain_range-Keeps start end =
      bind-Keeps (load_row env m bucket key) _
        (still-Keeps (load_row env m bucket key) (load_row-SameTables env m bucket key))
        (λ file w c. ground (arith, plain_span-Keeps file start end w))

  pub compressed_range-Keeps :
      (start end : ℕ) → Keeps (get_compressed_file_range env m bucket key start end)
  unfolding get_compressed_file_range
  compressed_range-Keeps start end =
      bind-Keeps (load_row env m bucket key) _
        (still-Keeps (load_row env m bucket key) (load_row-SameTables env m bucket key))
        (λ file w c. ground (arith, compressed_span-Keeps file start end w))
