-- ===== src/Concurrent/Stores.antt =====
-- The steps of storing a file, and the abstract store.
use rust_local_storage_cdn.Prelude.{
  ℕ, Text, Bytes, Bool, true, false, Option, none, some, Bool-cases, Result-cases, ok, err, ◌≡◌,
  inl, inr, ◌⊎◌, refl, arith, find, text_eq, ap, ◌∙◌,
}
use rust_local_storage_cdn.Errors.{StorageResult}
use rust_local_storage_cdn.Models.{StoredFile}
use rust_local_storage_cdn.World.{World, Env, create_dir}
use rust_local_storage_cdn.World.Actions.{gets, draw, io_call}
use rust_local_storage_cdn.Database.{save_file, is_at}
use rust_local_storage_cdn.Database.Laws.{IsUnique, upsert-IsUnique}
use rust_local_storage_cdn.Cache.{set_file_metadata, set_file_content, backend_set}
use rust_local_storage_cdn.Storage.Paths.{get_file_path, split_dir, temp_path}
use rust_local_storage_cdn.Storage.Disk.{write_file, rename, unlink}
use rust_local_storage_cdn.Storage.Encode.{
  StorageManager, StoreOptions, compress_stage, encrypt_stage,
}
use rust_local_storage_cdn.Storage.Store.{aliased_row, stored_row, find_duplicate}
use rust_local_storage_cdn.Machine.{Contents, contents, set}
use rust_local_storage_cdn.Machine.Tables.{find-lookup}
use rust_local_storage_cdn.Machine.Refinement.{saved, found, same_files}
use rust_local_storage_cdn.Machine.Frames.Store.{
  find_duplicate-SameTables, find_duplicate-find, encrypt_stage-SameTables,
}
use rust_local_storage_cdn.Machine.Frames.Saved.{save_file-cases}
use rust_local_storage_cdn.Concurrent.Processes.{
  Process, pure, raise, call, ◌>>=◌, ◌>>◌, attempt, ignore,
}
use rust_local_storage_cdn.Concurrent.Steps.{
  ensure_steps, reuse_steps, cleanup_steps, save_steps, warm_steps, write_steps, record_steps,
  store_new_steps, store_or_reuse_steps, store_steps,
}
use rust_local_storage_cdn.Concurrent.Follows.{
  Follows, Exact, Kept, Sure, Lifted, bind-Follows, attempt-Follows, call-Kept, gets-Sure,
  draw-Sure, kept_first, sure_first, ignore-Sure,
}
use rust_local_storage_cdn.Concurrent.Removals.{ensure-Kept}

-- What a row that is saved does to the abstract store.
abbrev placing : StoredFile → Contents → Contents
placing file = set file.bucket file.key (some file.hash_blake3)

module _ (env : Env) (m : StorageManager) (bucket key : Text) where
  save-Exact : (file : StoredFile) → Follows Exact (placing file) false (call (save_file env file))
  save-Exact file w u =
      let w1 = (save_file env file w).1 in
      elim (save_file-cases env m bucket key file w).0 [
        | inl (done, f) ↦
            rw (done, f)
              (
                upsert-IsUnique file w.files u,
                inr (refl, saved file.bucket file.key w w1 file refl refl f, refl),
              )
        | inr (e, failed, same) ↦ rw (failed, same) (u, inl (same_files w w1 same, refl))
      ]

  cleaned :
      (change : Contents → Contents) (path : Text) (made : Bool) (r : StorageResult (Unit {0}))
      → Exact made r
      → Follows Exact change made (cleanup_steps env m bucket key path r)
  unfolding cleanup_steps unlink
  cleaned change path made (ok u) done = done
  cleaned change path made (err e) failed = rw failed (
      sure_first change Exact false (ignore (call (unlink env path))) (λ u. raise {A = Unit {0}} e)
        (ignore-Sure change false (call (unlink env path))
          (call-Kept change false (unlink env path) (λ w. ground arith)))
        (λ u. refl))

  saving-Exact :
      (path : Text) (file : StoredFile)
      → Follows Exact (placing file) false (save_steps env m bucket key path file)
  unfolding save_steps
  saving-Exact path file =
      bind-Follows (placing file) (Lifted Exact) Exact false (attempt (call (save_file env file)))
        (cleanup_steps env m bucket key path)
        (λ b r outcome. cleaned (placing file) path b r outcome) (λ b e h. absurd h)
        (attempt-Follows (placing file) Exact false (call (save_file env file)) (save-Exact file))

  warm-Sure :
      (change : Contents → Contents) (made : Bool) (file : StoredFile) (stored : Bytes)
      → Follows (Sure made) change made (warm_steps env m bucket key file stored)
  unfolding warm_steps set_file_metadata set_file_content backend_set
  warm-Sure change made file stored =
      let metadata = call (set_file_metadata env bucket key file) in
      let content = call (set_file_content env bucket key stored) in
      sure_first change (Sure made) made (ignore metadata) (λ u. ignore content)
        (ignore-Sure change made metadata
          (call-Kept change made (set_file_metadata env bucket key file) (λ w. ground arith)))
        (λ u.
          ignore-Sure change made content
            (call-Kept change made (set_file_content env bucket key stored) (λ w. ground arith)))

  write-Kept :
      (change : Contents → Contents) (path : Text) (stored : Bytes)
      → Follows (Kept false) change false (write_steps env m bucket key path stored)
  unfolding write_steps write_file rename
  write-Kept change path stored =
      let written = call (write_file env (temp_path path) stored) in
      let renamed = call (rename env (temp_path path) path) in
      kept_first change (Kept false) false (call (io_call env (create_dir (split_dir path).0)))
        (λ u. written >> renamed)
        (call-Kept change false (io_call env (create_dir (split_dir path).0)) (λ w. ground arith))
        (λ u.
          kept_first change (Kept false) false written (λ v. renamed)
            (call-Kept change false (write_file env (temp_path path) stored) (λ w. ground arith))
            (λ v. call-Kept change false (rename env (temp_path path) path) (λ w. ground arith))
            (λ e. refl))
        (λ e. refl)

module _ (env : Env) (m : StorageManager) (bucket key : Text) (content : Bytes)
    (content_type : Option Text) (opts : StoreOptions) where
  abbrev pub storing : Contents → Contents
  storing = set bucket key (some (env.blake3 content))

  -- A row that is saved, with what follows.
  then-Exact :
      {A B : Type 0} (p : Process A) (f : A → Process B)
      → Follows Exact storing false p
      → ((a : A) → Follows Exact storing true (f a))
      → Follows Exact storing false (p >>= f)
  then-Exact p f exact good =
      bind-Follows storing Exact Exact false p f (λ b a made. rw made (good a)) (λ b e made. made)
        exact

  reuse-Exact :
      (existing : StoredFile)
      → is_at bucket key existing ≡ false
      → Follows Exact storing false
          (reuse_steps env m bucket key content content_type opts existing)
  unfolding reuse_steps aliased_row
  reuse-Exact existing other =
      let row = λ (id now : ℕ).
        aliased_row id now bucket key (env.blake3 content) (env.md5 content) content_type opts
          existing in
      let saved_row = λ (id now : ℕ). call (save_file env (row id now)) >> pure (row id now) in
      rw other (
        sure_first storing Exact false (call (draw env.uuid))
          (λ id. call (gets (λ w. w.now)) >>= saved_row id) (draw-Sure storing false env.uuid)
          (λ id.
            sure_first storing Exact false (call (gets (λ w. w.now))) (saved_row id)
              (gets-Sure storing false (λ w. w.now))
              (λ now.
                then-Exact (call (save_file env (row id now))) (λ u. pure (row id now))
                  (save-Exact env m bucket key (row id now)) (λ u. refl))))

  record-Exact :
      (stored : Bytes) (encrypted : Bool)
      → Follows Exact storing false
          (record_steps env m bucket key content content_type opts stored encrypted)
  unfolding record_steps stored_row
  record-Exact stored encrypted =
      let squeezed = compress_stage env m opts content in
      let path = get_file_path m.config.storage.path bucket key in
      let row = λ (id now : ℕ).
        stored_row m id now bucket key path (env.blake3 content) (env.md5 content) content_type opts
          content squeezed.0 stored squeezed.1 encrypted in
      let warmed = λ (file : StoredFile). warm_steps env m bucket key file stored >> pure file in
      let kept_row =
        λ (id now : ℕ). save_steps env m bucket key path (row id now) >> warmed (row id now) in
      sure_first storing Exact false (call (draw env.uuid))
        (λ id. call (gets (λ w. w.now)) >>= kept_row id) (draw-Sure storing false env.uuid)
        (λ id.
          sure_first storing Exact false (call (gets (λ w. w.now))) (kept_row id)
            (gets-Sure storing false (λ w. w.now))
            (λ now.
              then-Exact (save_steps env m bucket key path (row id now)) (λ u. warmed (row id now))
                (saving-Exact env m bucket key path (row id now))
                (λ u.
                  sure_first storing Exact true (warm_steps env m bucket key (row id now) stored)
                    (λ v. pure (row id now))
                    (warm-Sure env m bucket key storing true (row id now) stored) (λ v. refl))))

  store_new-Exact :
      Follows Exact storing false (store_new_steps env m bucket key content content_type opts)
  unfolding store_new_steps
  store_new-Exact =
      let squeezed = compress_stage env m opts content in
      let path = get_file_path m.config.storage.path bucket key in
      let recorded =
        λ (s : Bytes × Bool). record_steps env m bucket key content content_type opts s.0 s.1 in
      kept_first storing Exact false (call (encrypt_stage env m opts squeezed.0))
        (λ s. write_steps env m bucket key path s.0 >> recorded s)
        (call-Kept storing false (encrypt_stage env m opts squeezed.0)
          (λ w. (encrypt_stage-SameTables env m bucket key opts squeezed.0 w).0))
        (λ s.
          kept_first storing Exact false (write_steps env m bucket key path s.0) (λ u. recorded s)
            (write-Kept env m bucket key storing path s.0) (λ u. record-Exact s.0 s.1) (λ e. refl))
        (λ e. refl)

  -- What deduplication found, in a table with unique rows.
  chosen-Exact :
      (w w1 : World) (o : Option StoredFile)
      → w1.files ≡ w.files
      → IsUnique w.files
      → ((f : StoredFile)
          → o ≡ some f
          → find (λ row. text_eq row.hash_blake3 (env.blake3 content)) w.files ≡ some f)
      → let rest = store_or_reuse_steps env m bucket key content content_type opts o in
        ((contents w1 ≡ contents w) × Follows Exact storing false rest)
        ⊎ ((false ≡ false) × (contents w1 ≡ storing (contents w)) × Follows Exact storing true rest)
  unfolding store_or_reuse_steps reuse_steps
  chosen-Exact w w1 none same u by_hash = inl (same_files w w1 same, store_new-Exact)
  chosen-Exact w w1 (some f) same u by_hash = elim (Bool-cases (is_at bucket key f)) [
    | inr other ↦ inl (same_files w w1 same, reuse-Exact f other)
    | inl here ↦
        let (there, has_hash) = find-lookup (env.blake3 content) w.files f u (by_hash f refl) in
        inr (refl, rw (← has_hash) (found bucket key w w1 f here there same), already f here)
  ]
    where
      already :
          (f : StoredFile)
          → is_at bucket key f ≡ true
          → Follows Exact storing true (reuse_steps env m bucket key content content_type opts f)
      already f here = rw here refl

  checked-Exact : Follows Exact storing false (
      call (find_duplicate env m bucket key (env.blake3 content))
      >>= store_or_reuse_steps env m bucket key content content_type opts)
  checked-Exact w u =
      let hash = env.blake3 content in
      let w1 = (find_duplicate env m bucket key hash w).1 in
      let same = (find_duplicate-SameTables env m bucket key hash w).0 in
      elim (Result-cases (find_duplicate env m bucket key hash w).0) [
        | inr (e, bad) ↦ rw bad (rw same u, inl (same_files w w1 same, refl))
        | inl (o, good) ↦ rw good (
          rw same u,
          chosen-Exact w w1 o same u
              (λ f is_f. find_duplicate-find env m bucket key hash f w (good ∙ ap ok is_f)),
        )
      ]

  -- The steps of a store: one of them puts the hash of the content at the key, or finds it there, and
  -- no other changes what is stored.
  pub store-Exact :
      Follows Exact storing false (store_steps env m bucket key content content_type opts)
  unfolding store_steps
  store-Exact =
      kept_first storing Exact false (ensure_steps env m.config.storage.path bucket)
        (λ u.
          call (find_duplicate env m bucket key (env.blake3 content))
          >>= store_or_reuse_steps env m bucket key content content_type opts)
        (ensure-Kept env storing false m.config.storage.path bucket) (λ u. checked-Exact)
        (λ e. refl)
