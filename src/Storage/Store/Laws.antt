-- ===== src/Storage/Store/Laws.antt =====
-- What `store_new` of local-storage/src/storage.rs leaves behind where no outside call fails.
use rust_local_storage_cdn.Prelude.{
  suc, Text, Bytes, Bool, Option, none, some, length, ltb, if◌then◌else◌, ok, ◌≡◌, refl,
  text_eq_refl, Bool-cases, inl, inr,
}
use rust_local_storage_cdn.Models.{StoredFile}
use rust_local_storage_cdn.World.{World, Env, IsCalm}
use rust_local_storage_cdn.World.Actions.{put}
use rust_local_storage_cdn.Database.{upsert, save_file}
use rust_local_storage_cdn.Cache.{
  metadata_key, content_key, max_cache_size, set_file_metadata, set_file_content, backend_set,
}
use rust_local_storage_cdn.Storage.Paths.{get_file_path, temp_path}
use rust_local_storage_cdn.Storage.Disk.{write_file, rename, write_file_atomic}
use rust_local_storage_cdn.Storage.Encode.{
  StoreOptions, StorageManager, compress_stage, encrypt_stage,
}
use rust_local_storage_cdn.Storage.Store.{
  stored_row, write_bytes, save_or_cleanup, cleanup, warm_cache, store_new,
}

-- The disk after an atomic write.
abbrev pub written : Env → Text → Bytes → (Text → Option Bytes) → Text → Option Bytes
written env path stored disk =
    let temp = env.canonical (temp_path path) in
    put (env.canonical path) (put temp (some stored) disk temp)
      (put temp none (put temp (some stored) disk))

-- An atomic write leaves the bytes at its path.
pub written_here :
    (env : Env) (path : Text) (stored : Bytes) (disk : Text → Option Bytes)
    → written env path stored disk (env.canonical path) ≡ some stored
written_here env path stored disk =
    rw (text_eq_refl (env.canonical path), text_eq_refl (env.canonical (temp_path path)))

module _ (env : Env) (calm : IsCalm env) (m : StorageManager) (bucket key : Text) where
  write_bytes-calm :
      (path : Text) (stored : Bytes) (w : World)
      → write_bytes env m bucket key path stored w
        ≡ (ok tt, record w { disk = written env path stored w.disk })
  unfolding write_bytes write_file_atomic write_file rename
  write_bytes-calm path stored w = simp calm

  save-calm :
      (path : Text) (file : StoredFile) (w : World)
      → save_or_cleanup env m bucket key path file w
        ≡ (ok tt, record w { files = upsert file w.files })
  unfolding save_or_cleanup cleanup save_file
  save-calm path file w = simp calm

  -- The cache after the row and the bytes were put in it.
  abbrev pub warmed : Bytes → Bytes → (Text → Option Bytes) → Text → Option Bytes
  warmed bytes stored cache =
      let rows = put (metadata_key bucket key) (some bytes) cache in
      if ltb max_cache_size (length stored)
      then rows
      else put (content_key bucket key) (some stored) rows

  warm_cache-calm :
      (file : StoredFile) (bytes stored : Bytes) (w : World)
      → env.to_vec file ≡ ok bytes
      → warm_cache env m bucket key file stored w
        ≡ (ok tt, record w { cache = warmed bytes stored w.cache })
  unfolding warm_cache set_file_metadata set_file_content backend_set
  warm_cache-calm file bytes stored w h = elim (Bool-cases (ltb max_cache_size (length stored))) [
    | inl big ↦ simp (calm, h, big)
    | inr small ↦ simp (calm, h, small)
  ]

  abbrev pub path_here : Text
  path_here = get_file_path m.config.storage.path bucket key

  -- The row that an upload of new content writes, after the stages left the world `w1`.
  abbrev pub new_row :
      (content squeezed stored : Bytes) (compressed encrypted : Bool)
      → Option Text
      → StoreOptions
      → World
      → StoredFile
  new_row content squeezed stored compressed encrypted content_type opts w1 =
      stored_row m (env.uuid w1.drawn) w1.now bucket key path_here (env.blake3 content)
        (env.md5 content) content_type opts content squeezed stored compressed encrypted

  abbrev pub after_store : (file : StoredFile) (bytes stored : Bytes) → World → World
  after_store file bytes stored w1 = record w1 {
    files = upsert file w1.files;
    disk = written env path_here stored w1.disk;
    cache = warmed bytes stored w1.cache;
    drawn = suc w1.drawn;
  }

  -- The whole effect of storing new content: the row, the bytes at its path and the cache.
  pub store_new-calm :
      (content squeezed stored bytes : Bytes) (compressed encrypted : Bool)
      (content_type : Option Text) (opts : StoreOptions) (w w1 : World)
      → compress_stage env m opts content ≡ (squeezed, compressed)
      → encrypt_stage env m opts squeezed w ≡ (ok (stored, encrypted), w1)
      → env.to_vec (new_row content squeezed stored compressed encrypted content_type opts w1)
        ≡ ok bytes
      → store_new env m bucket key content content_type opts w ≡ (
        ok (new_row content squeezed stored compressed encrypted content_type opts w1),
        after_store
            (new_row content squeezed stored compressed encrypted content_type opts w1)
            bytes
            stored
            w1,
      )
  unfolding store_new
  store_new-calm content squeezed stored bytes compressed encrypted content_type opts w w1 first
        second json =
      rw (first, second, write_bytes-calm path_here stored w1, save-calm)
        (rw (warm_cache-calm _ bytes stored _ json) refl)
