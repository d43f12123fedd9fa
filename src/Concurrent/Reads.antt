-- ===== src/Concurrent/Reads.antt =====
-- The steps of a read, and the abstract store.
use rust_local_storage_cdn.Prelude.{
  ℕ, Text, Bytes, Bool, true, false, Option, none, some, Result, ok, err, Bool-cases, ◌≡◌, inl, inr,
  refl, arith, ap, if◌then◌else◌,
}
use rust_local_storage_cdn.Errors.{StorageError, StorageResult}
use rust_local_storage_cdn.Models.{StoredFile, file_info}
use rust_local_storage_cdn.World.{World, Env, Fault}
use rust_local_storage_cdn.World.Actions.{Action}
use rust_local_storage_cdn.Database
use rust_local_storage_cdn.Database.{update_access}
use rust_local_storage_cdn.Cache.{
  get_file_metadata, set_file_metadata, get_file_content, set_file_content, backend_get,
  backend_set, backend_del, parse_entry, parsed_or_miss,
}
use rust_local_storage_cdn.Storage.Disk.{read_disk}
use rust_local_storage_cdn.Storage.Encode.{StorageManager, decode_content}
use rust_local_storage_cdn.Storage.Fetch.{has_expired}
use rust_local_storage_cdn.Machine.{Contents, set}
use rust_local_storage_cdn.Machine.Frames.{decode_content-world, update_access-files}
use rust_local_storage_cdn.Machine.Tables.{touch-IsUnique}
use rust_local_storage_cdn.Machine.Refinement.{kept, same_files}
use rust_local_storage_cdn.Concurrent.Processes.{
  Process, pure, raise, call, ◌>>=◌, ◌>>◌, attempt, ignore,
}
use rust_local_storage_cdn.Concurrent.Steps.{
  delete_steps, cached_or_row_steps, load_row_steps, unless_expired_steps, read_or_gone_steps,
  cached_or_disk_steps, load_bytes_steps, get_steps, info_steps,
}
use rust_local_storage_cdn.Concurrent.Follows.{
  Follows, Exact, Weak, Kept, bind-Follows, attempt-Sure, call-Kept, kept_first, sure_first,
  ignore-Sure, any-ignore, weak_first,
}
use rust_local_storage_cdn.Concurrent.Removals.{delete-Exact}

module _ (env : Env) (m : StorageManager) (bucket key : Text) where
  abbrev pub losing : Contents → Contents
  losing = set bucket key none

  -- A step of a read that leaves the table of files alone.
  quiet_first :
      {A B : Type 0} (a : Action A) (f : A → Process B)
      → ((w : World) → (a w).1.files ≡ w.files)
      → ((x : A) → Follows Weak losing false (f x))
      → Follows Weak losing false (call a >>= f)
  quiet_first a f same good =
      kept_first losing Weak false (call a) f (call-Kept losing false a same) good (λ e. tt)

  tried_first :
      {A B : Type 0} (a : Action A) (f : StorageResult A → Process B)
      → ((w : World) → (a w).1.files ≡ w.files)
      → ((x : StorageResult A) → Follows Weak losing false (f x))
      → Follows Weak losing false (attempt (call a) >>= f)
  tried_first a f same good =
      sure_first losing Weak false (attempt (call a)) f
        (attempt-Sure losing false (call a) (call-Kept losing false a same)) good

  ignored_first :
      {A B : Type 0} (a : Action A) (f : Unit {0} → Process B)
      → ((w : World) → (a w).1.files ≡ w.files)
      → Follows Weak losing false (f tt)
      → Follows Weak losing false (ignore (call a) >>= f)
  ignored_first a f same good =
      sure_first losing Weak false (ignore (call a)) f
        (ignore-Sure losing false (call a) (call-Kept losing false a same)) (λ u. good)

  row-Weak : Follows Weak losing false (cached_or_row_steps env m bucket key (ok none))
  unfolding cached_or_row_steps Database.get_file set_file_metadata backend_set
  row-Weak =
      quiet_first (Database.get_file env bucket key)
        (λ file. ignore (call (set_file_metadata env bucket key file)) >> pure file)
        (λ w. ground arith)
        (λ file.
          ignored_first {B = StoredFile} (set_file_metadata env bucket key file) (λ u. pure file)
            (λ w. ground arith) refl)

  cached-Weak :
      (r : StorageResult (Option StoredFile))
      → Follows Weak losing false (cached_or_row_steps env m bucket key r)
  unfolding cached_or_row_steps
  cached-Weak (ok (some file)) = refl
  cached-Weak (ok none) = row-Weak
  cached-Weak (err e) = row-Weak

  load_row-Weak : Follows Weak losing false (load_row_steps env m bucket key)
  unfolding load_row_steps get_file_metadata backend_get backend_del parse_entry parsed_or_miss
  load_row-Weak =
      tried_first (get_file_metadata env bucket key) (cached_or_row_steps env m bucket key)
        (λ w. ground arith) cached-Weak

  -- A read that finds its file expired or lost removes it, and fails.
  gone-Weak :
      (A : Type 0)
      → Follows {A = A} Weak losing false
          (ignore (delete_steps env bucket key) >> raise (StorageError.not_found bucket key))
  gone-Weak A =
      bind-Follows losing (λ b r. Unit) Weak false (ignore (delete_steps env bucket key))
        (λ u. raise {A = A} (StorageError.not_found bucket key)) (λ b u h. tt) (λ b e h. tt)
        (any-ignore losing Exact false (delete_steps env bucket key) (delete-Exact env bucket key))

  unless_expired-Weak :
      (file : StoredFile) → Follows Weak losing false (unless_expired_steps env m bucket key file)
  unfolding unless_expired_steps
  unless_expired-Weak file w u = (u, inl (refl, fresh (has_expired file.expires_at w.now)))
    where
      fresh :
          (late : Bool)
          → Follows Weak losing false (
              if late
              then ignore (delete_steps env bucket key)
                >> raise {A = Unit {0}} (StorageError.not_found bucket key)
              else pure tt)
      fresh true = gone-Weak (Unit {0})
      fresh false = refl

  read_or_gone-Weak :
      (r : Result Fault Bytes) → Follows Weak losing false (read_or_gone_steps env m bucket key r)
  unfolding read_or_gone_steps set_file_content backend_set
  read_or_gone-Weak (ok content) =
      ignored_first {B = Bytes} (set_file_content env bucket key content) (λ u. pure content)
        (λ w. ground arith) refl
  read_or_gone-Weak (err f) = elim (Bool-cases f.is_missing_file) [
    | inl missing ↦ rw missing (gone-Weak Bytes)
    | inr other ↦ rw other tt
  ]

  disk-Weak :
      (path : Text)
      → Follows Weak losing false (cached_or_disk_steps env m bucket key path (ok none))
  unfolding cached_or_disk_steps read_disk
  disk-Weak path =
      quiet_first (read_disk env path) (read_or_gone_steps env m bucket key) (λ w. refl)
        read_or_gone-Weak

  cached_or_disk-Weak :
      (path : Text) (r : StorageResult (Option Bytes))
      → Follows Weak losing false (cached_or_disk_steps env m bucket key path r)
  unfolding cached_or_disk_steps
  cached_or_disk-Weak path (ok (some content)) = refl
  cached_or_disk-Weak path (ok none) = disk-Weak path
  cached_or_disk-Weak path (err e) = disk-Weak path

  load_bytes-Weak :
      (path : Text) → Follows Weak losing false (load_bytes_steps env m bucket key path)
  unfolding load_bytes_steps get_file_content backend_get
  load_bytes-Weak path =
      tried_first (get_file_content env bucket key) (cached_or_disk_steps env m bucket key path)
        (λ w. ground arith) (cached_or_disk-Weak path)

  touched-Kept : (id : ℕ) → Follows (Kept false) losing false (call (update_access env id))
  touched-Kept id w u =
      let w1 = (update_access env id w).1 in
      let (files, buckets) = update_access-files env m bucket key id w in
      elim files [
        | inl same ↦ (rw same u, inl (same_files w w1 same, refl))
        | inr touched ↦ (
          rw touched (touch-IsUnique id w.now w.files u),
          inl (kept bucket key w w1 tt (inr (id, w.now, touched), buckets), refl),
        )
      ]

  -- The steps of a read: none changes what is stored, except that a read that fails may have removed
  -- its key.
  pub get-Weak : Follows Weak losing false (get_steps env m bucket key)
  unfolding get_steps
  get-Weak =
      let counted = λ (file : StoredFile) (content : Bytes).
        ignore (call (update_access env file.id))
        >> pure {A = Bytes × Option Text} (content, some file.content_type) in
      let decoded = λ (file : StoredFile) (raw : Bytes).
        call (decode_content env m file raw) >>= counted file in
      let loaded =
        λ (file : StoredFile). load_bytes_steps env m bucket key file.file_path >>= decoded file in
      weak_first losing (load_row_steps env m bucket key)
        (λ file. unless_expired_steps env m bucket key file >> loaded file) load_row-Weak
        (λ file.
          weak_first losing (unless_expired_steps env m bucket key file) (λ u. loaded file)
            (unless_expired-Weak file)
            (λ u.
              weak_first losing (load_bytes_steps env m bucket key file.file_path) (decoded file)
                (load_bytes-Weak file.file_path)
                (λ raw.
                  quiet_first (decode_content env m file raw) (counted file)
                    (λ w.
                      ap (λ (v : World). v.files)
                        (decode_content-world env m bucket key file raw w))
                    (λ content.
                      sure_first losing Weak false (ignore (call (update_access env file.id)))
                        (λ u. pure {A = Bytes × Option Text} (content, some file.content_type))
                        (ignore-Sure losing false (call (update_access env file.id))
                          (touched-Kept file.id))
                        (λ u. refl)))))

  pub info-Weak : Follows Weak losing false (info_steps env m bucket key)
  unfolding info_steps Database.get_file
  info-Weak =
      quiet_first (Database.get_file env bucket key)
        (λ file. unless_expired_steps env m bucket key file >> pure (file_info file))
        (λ w. ground arith)
        (λ file.
          weak_first losing (unless_expired_steps env m bucket key file)
            (λ u. pure (file_info file)) (unless_expired-Weak file) (λ u. refl))
