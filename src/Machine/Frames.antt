-- ===== src/Machine/Frames.antt =====
-- What each operation of the storage layer does to the two tables, whichever outside calls fail.
pub mod Store
pub mod Saved
use rust_local_storage_cdn.Prelude.{
  ℕ, Text, Bytes, Bool, true, false, Option, some, none, List, any, ok, err, ◌≡◌, ◌⊎◌, inl, inr,
  refl, arith, map, Result-cases, Bool-cases, Option-cases, ap, ◌∙◌, unwrap_or,
}
use rust_local_storage_cdn.Errors.{StorageError, StorageResult}
use rust_local_storage_cdn.Models.{StoredFile, FileInfo}
use rust_local_storage_cdn.World.{World, Env}
use rust_local_storage_cdn.World.Actions.{Action, continue}
use rust_local_storage_cdn.Keys.{get_key}
use rust_local_storage_cdn.Crypto.{from_str}
use rust_local_storage_cdn.Database
use rust_local_storage_cdn.Database.{without, touch, update_access}
use rust_local_storage_cdn.Cache.{
  invalidate_file, get_file_metadata, backend_get, backend_del, parse_entry, parsed_or_miss,
  set_file_metadata, backend_set, get_file_content, set_file_content,
}
use rust_local_storage_cdn.Storage.Encode.{
  StorageManager, decode_content, decrypt_stage, decompress_stage,
}
use rust_local_storage_cdn.Storage.Disk.{unlink, read_disk}
use rust_local_storage_cdn.Storage.Remove.{delete_file, delete_row, release}
use rust_local_storage_cdn.Storage.Fetch.{
  get_file, get_file_info, load_row, cached_or_row, row_from_database, unless_expired, load_bytes,
  cached_or_disk, read_or_gone,
}

-- A chain has a property of its outcome when its error has it, and every continuation has it.
pub settle :
    {A B : Type 0} (Q : StorageResult B → World → Type 0) (r : StorageResult A) (f : A → Action B)
    (w : World)
    → ((e : StorageError) → r ≡ err e → Q (err e) w)
    → ((a : A) → r ≡ ok a → Q (f a w).0 (f a w).1)
    → Q (continue r f w).0 (continue r f w).1
settle Q (ok a) f w bad good = good a refl
settle Q (err e) f w bad good = bad e refl

-- The tables are as they were.
abbrev pub SameTables : World → World → Type 0
SameTables w w' = (w'.files ≡ w.files) × (w'.buckets ≡ w.buckets)

pub SameTables-trans : (w1 w2 w3 : World) → SameTables w1 w2 → SameTables w2 w3 → SameTables w1 w3
SameTables-trans w1 w2 w3 (f, b) (g, c) = (g ∙ f, c ∙ b)

-- A row was removed, or not.
abbrev pub MayLose : Text → Text → World → World → Type 0
MayLose bucket key w w' =
    ((w'.files ≡ w.files) ⊎ (w'.files ≡ without bucket key w.files)) × (w'.buckets ≡ w.buckets)

-- A step of a read: while it goes on the tables are as they were, and when it ends early the row may
-- be gone.
abbrev pub Reading : {A : Type 0} → Text → Text → World → StorageResult A → World → Type 0
Reading bucket key w (ok a) w' = SameTables w w'
Reading bucket key w (err e) w' = MayLose bucket key w w'

module _ (env : Env) (m : StorageManager) (bucket key : Text) where
  pub delete_file-MayLose : (w : World) → MayLose bucket key w (delete_file env bucket key w).1
  unfolding delete_file delete_row release unlink invalidate_file
  delete_file-MayLose w = ground arith

  pub load_row-SameTables : (w : World) → SameTables w (load_row env m bucket key w).1
  unfolding load_row cached_or_row row_from_database get_file_metadata backend_get backend_del
      parse_entry parsed_or_miss Database.get_file set_file_metadata backend_set
  load_row-SameTables w = ground arith

  unless_expired-Reading :
      (file : StoredFile) (w : World)
      → Reading bucket key w
          (unless_expired env m bucket key file w).0
          (unless_expired env m bucket key file w).1
  unfolding unless_expired
  unless_expired-Reading file w = ground (arith, delete_file-MayLose w)

  load_bytes-Reading :
      (path : Text) (w : World)
      → Reading bucket key w
          (load_bytes env m bucket key path w).0
          (load_bytes env m bucket key path w).1
  unfolding load_bytes cached_or_disk get_file_content backend_get read_disk read_or_gone
      set_file_content backend_set
  load_bytes-Reading path w = ground (arith, delete_file-MayLose w)

  pub decode_content-world :
      (file : StoredFile) (raw : Bytes) (w : World) → (decode_content env m file raw w).1 ≡ w
  unfolding decode_content decrypt_stage decompress_stage get_key
  decode_content-world file raw w = ground arith

  pub update_access-files :
      (id : ℕ) (w : World)
      → (((update_access env id w).1.files ≡ w.files)
          ⊎ ((update_access env id w).1.files ≡ map (touch id w.now) w.files))
        × ((update_access env id w).1.buckets ≡ w.buckets)
  unfolding update_access
  update_access-files id w = ground arith

-- A read that succeeds may count an access; one that fails may have removed the row.
abbrev pub ReadTables : {A : Type 0} → Text → Text → World → StorageResult A → World → Type 0
ReadTables bucket key w (ok a) w' =
    ((w'.files ≡ w.files) ⊎ ((id : ℕ) × (now : ℕ) × (w'.files ≡ map (touch id now) w.files)))
    × (w'.buckets ≡ w.buckets)
ReadTables bucket key w (err e) w' = MayLose bucket key w w'

module _ (bucket key : Text) where
  lose-after :
      (w w1 w2 : World) → SameTables w w1 → MayLose bucket key w1 w2 → MayLose bucket key w w2
  lose-after w w1 w2 (f, b) (inl g, c) = (inl (g ∙ f), c ∙ b)
  lose-after w w1 w2 (f, b) (inr g, c) = (inr (g ∙ ap (without bucket key) f), c ∙ b)

  after :
      {A : Type 0} (r : StorageResult A) (w w1 w2 : World)
      → SameTables w w1
      → Reading bucket key w1 r w2
      → Reading bucket key w r w2
  after (ok a) w w1 w2 kept step = SameTables-trans w w1 w2 kept step
  after (err e) w w1 w2 kept step = lose-after w w1 w2 kept step

  still :
      {A : Type 0} (r : StorageResult A) (w w1 : World)
      → SameTables w w1
      → Reading bucket key w r w1
  still (ok a) w w1 kept = kept
  still (err e) w w1 (f, b) = (inl f, b)

  settled :
      {A B : Type 0} (r : StorageResult A) (f : A → Action B) (w w1 : World)
      → Reading bucket key w r w1
      → ((a : A) (v : World) → SameTables w v → ReadTables bucket key w (f a v).0 (f a v).1)
      → ReadTables bucket key w (continue r f w1).0 (continue r f w1).1
  settled (ok a) f w w1 kept rest = rest a w1 kept
  settled (err e) f w w1 lost rest = lost

  -- A read goes on with a step after steps that kept the tables.
  pub next :
      {A B : Type 0} (step : Action A) (f : A → Action B) (w w1 : World)
      → SameTables w w1
      → ((v : World) → Reading bucket key v (step v).0 (step v).1)
      → ((a : A) (v : World) → SameTables w v → ReadTables bucket key w (f a v).0 (f a v).1)
      → ReadTables bucket key w
          (continue (step w1).0 f (step w1).1).0
          (continue (step w1).0 f (step w1).1).1
  next step f w w1 kept reading rest =
      settled (step w1).0 f w (step w1).1 (after (step w1).0 w w1 (step w1).1 kept (reading w1))
        rest

module _ (env : Env) (m : StorageManager) (bucket key : Text) where
  counted :
      {A : Type 0} (a : A) (id : ℕ) (w w1 : World)
      → SameTables w w1
      → ReadTables bucket key w (ok a) (update_access env id w1).1
  counted a id w w1 (f, b) = elim (update_access-files env m bucket key id w1).0 [
    | inl g ↦ (inl (g ∙ f), (update_access-files env m bucket key id w1).1 ∙ b)
    | inr g ↦ (
      inr (id, w1.now, g ∙ ap (map (touch id w1.now)) f),
      (update_access-files env m bucket key id w1).1 ∙ b,
    )
  ]

  load_row-Reading :
      (v : World)
      → Reading bucket key v (load_row env m bucket key v).0 (load_row env m bucket key v).1
  load_row-Reading v = still bucket key _ v _ (load_row-SameTables env m bucket key v)

  decode_content-Reading :
      (file : StoredFile) (raw : Bytes) (v : World)
      → Reading bucket key v (decode_content env m file raw v).0 (decode_content env m file raw v).1
  decode_content-Reading file raw v =
      still bucket key _ v _ (rw (decode_content-world env m bucket key file raw v) (refl, refl))

  pub get_file-ReadTables :
      (w : World)
      → ReadTables bucket key w (get_file env m bucket key w).0 (get_file env m bucket key w).1
  unfolding get_file
  get_file-ReadTables w =
      next bucket key (load_row env m bucket key) _ w w (refl, refl) load_row-Reading
        (λ file w1 k1.
          next bucket key (unless_expired env m bucket key file) _ w w1 k1
            (unless_expired-Reading env m bucket key file)
            (λ u w2 k2.
              next bucket key (load_bytes env m bucket key file.file_path) _ w w2 k2
                (load_bytes-Reading env m bucket key file.file_path)
                (λ raw w3 k3.
                  next bucket key (decode_content env m file raw) _ w w3 k3
                    (decode_content-Reading file raw)
                    (λ content w4 k4.
                      counted {A = Bytes × Option Text} (content, some file.content_type) file.id w
                        w4 k4))))

  row-Reading :
      (v : World)
      → Reading bucket key v
          (Database.get_file env bucket key v).0
          (Database.get_file env bucket key v).1
  unfolding Database.get_file
  row-Reading v = ground arith

  pub get_file_info-ReadTables :
      (w : World)
      → ReadTables bucket key w
          (get_file_info env m bucket key w).0
          (get_file_info env m bucket key w).1
  unfolding get_file_info
  get_file_info-ReadTables w =
      next bucket key (Database.get_file env bucket key) _ w w (refl, refl) row-Reading
        (λ file w1 k1.
          next bucket key (unless_expired env m bucket key file) _ w w1 k1
            (unless_expired-Reading env m bucket key file) (λ u w2 k2. (inl k2.0, k2.1)))
