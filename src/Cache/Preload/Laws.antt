-- ===== src/Cache/Preload/Laws.antt =====
-- How much the preloading service puts in the cache.
use rust_local_storage_cdn.Prelude.{
  ℕ, ◌+◌, ◌≤◌, Text, Bytes, str, false, Option, none, some, List, [], ◌∷◌, length, leb, ok, err,
  ◌≡◌, arith, Option-cases, Result-cases, Bool-cases, inl, inr, ◌∙◌, ap, sym,
}
use rust_local_storage_cdn.Errors.{StorageResult}
use rust_local_storage_cdn.Models.{StoredFile}
use rust_local_storage_cdn.World.{World, Env}
use rust_local_storage_cdn.World.Actions.{continue}
use rust_local_storage_cdn.Storage.Disk.{read_disk}
use rust_local_storage_cdn.Cache.{set_file_content, backend_set}
use rust_local_storage_cdn.Cache.Preload.{cache_file_from_disk, update_cache_status, preload_loop}
use rust_local_storage_cdn.Machine.Frames.{settle}

module _ (env : Env) where
  update_cache_status-disk :
      (id : ℕ) (status : Text) (hits : Option ℕ) (w : World)
      → (update_cache_status env id status hits w).1.disk ≡ w.disk
  unfolding update_cache_status
  update_cache_status-disk id status hits w = ground arith

  cache_file_from_disk-disk :
      (file : StoredFile) (w : World) → (cache_file_from_disk env file w).1.disk ≡ w.disk
  unfolding cache_file_from_disk read_disk set_file_content backend_set
  cache_file_from_disk-disk file w = ground arith

  cache_file_from_disk-length :
      (file : StoredFile) (w : World) (n : ℕ)
      → (cache_file_from_disk env file w).0 ≡ ok n
      → (content : Bytes) × (w.disk (env.canonical file.file_path) ≡ some content)
        × (n ≡ length content)
  unfolding cache_file_from_disk read_disk set_file_content backend_set
  cache_file_from_disk-length file w n h =
      elim (Option-cases (w.disk (env.canonical file.file_path))) [
        | inl absent ↦ ground (arith, h)
        | inr (content, there) ↦ (content, there, ground (arith, h))
      ]

-- An outcome with at most so many bytes and files.
abbrev pub Within : (bytes files : ℕ) → StorageResult (ℕ × ℕ) → Type 0
Within bytes files (ok (size, count)) = (size ≤ bytes) × (count ≤ files)
Within bytes files (err e) = Unit

room_left : (max size : ℕ) → leb max size ≡ false → size ≤ max
room_left max size h = ground arith

module _ (env : Env) (max bound : ℕ) where
  go_on :
      (id : ℕ) (status : Text) (rest : List StoredFile) (total size count : ℕ) (w : World)
      → Within
          (max + bound)
          total
          (preload_loop env max rest size count (update_cache_status env id status none w).1).0
      → Within
          (max + bound)
          total
          (continue
            (update_cache_status env id status none w).0
            (λ u. preload_loop env max rest size count)
            (update_cache_status env id status none w).1).0
  go_on id status rest total size count w h =
      settle (λ r v. Within (max + bound) total r) (update_cache_status env id status none w).0 _
        (update_cache_status env id status none w).1 (λ e bad. tt) (λ u done. h)

  -- One round keeps the disk, whether or not the file was cached.
  after_round :
      (file : StoredFile) (status : Text) (w : World)
      → (update_cache_status env file.id status none (cache_file_from_disk env file w).1).1.disk
        ≡ w.disk
  after_round file status w =
      update_cache_status-disk env file.id status none (cache_file_from_disk env file w).1
      ∙ cache_file_from_disk-disk env file w

  loop-Within :
      (files : List StoredFile) (size count total : ℕ) (w : World)
      → ((path : Text) (content : Bytes) → w.disk path ≡ some content → length content ≤ bound)
      → size ≤ max + bound
      → count + length files ≤ total
      → Within (max + bound) total (preload_loop env max files size count w).0
  unfolding preload_loop
  loop-Within [] size count total w small room fits = (room, omega arith)
  loop-Within (file ∷ rest) size count total w small room fits =
      let kept =
        λ (status : Text) (path : Text). ap (λ f. f path) (sym (after_round file status w)) in
      elim (Bool-cases (leb max size)) [
        | inl full ↦ rw full (room, omega arith)
        | inr more ↦ elim (Result-cases (cache_file_from_disk env file w).0) [
          | inl (n, done) ↦
              let (content, there, same) = cache_file_from_disk-length env file w n done in
              let few = small (env.canonical file.file_path) content there in
              let space = room_left max size more in
              rw (more, done)
                (go_on file.id (str "cached") rest total (size + n) (count + 1)
                  (cache_file_from_disk env file w).1
                  (loop-Within rest (size + n) (count + 1) total _
                    (λ path c e. small path c (kept (str "cached") path ∙ e)) (omega arith)
                    (omega arith)))
          | inr (e, failed) ↦
              rw (more, failed)
                (go_on file.id (str "not_cached") rest total size count
                  (cache_file_from_disk env file w).1
                  (loop-Within rest size count total _
                    (λ path c e'. small path c (kept (str "not_cached") path ∙ e')) room
                    (omega arith)))
        ]
      ]

  -- Whatever fails: where no file on disk has more bytes than a bound, a preload that succeeds counts
  -- at most that many bytes more than its maximum, and not more files than it was given.
  pub preload_loop-Within :
      (files : List StoredFile) (w : World)
      → ((path : Text) (content : Bytes) → w.disk path ≡ some content → length content ≤ bound)
      → Within (max + bound) (length files) (preload_loop env max files 0 0 w).0
  preload_loop-Within files w small =
      loop-Within files 0 0 (length files) w small (omega arith) (omega arith)
