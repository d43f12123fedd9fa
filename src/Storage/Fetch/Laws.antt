-- ===== src/Storage/Fetch/Laws.antt =====
-- Reading a file whose row and bytes are known, where no outside call fails.
use rust_local_storage_cdn.Prelude.{
  Text, Bytes, true, false, none, some, length, ltb, ok, ◌≡◌, ◌⊎◌, inl, inr,
}
use rust_local_storage_cdn.Models.{StoredFile}
use rust_local_storage_cdn.World.{World, Env, IsCalm}
use rust_local_storage_cdn.Cache.{
  metadata_key, content_key, max_cache_size, get_file_metadata, parse_entry, parsed_or_miss,
  backend_get, get_file_content, set_file_content,
}
use rust_local_storage_cdn.Storage.Disk.{read_disk}
use rust_local_storage_cdn.Storage.Encode.{StorageManager, decode_content}
use rust_local_storage_cdn.Storage.Fetch.{
  load_row, cached_or_row, unless_expired, has_expired, load_bytes, cached_or_disk, read_or_gone,
  get_file,
}

module _ (env : Env) (calm : IsCalm env) (m : StorageManager) (bucket key : Text) where
  -- A cached row that parses is the row that is used.
  pub load_row-cached :
      (file : StoredFile) (bytes : Bytes) (w : World)
      → w.cache (metadata_key bucket key) ≡ some bytes
      → env.from_slice bytes ≡ ok file
      → load_row env m bucket key w ≡ (ok file, w)
  unfolding load_row cached_or_row get_file_metadata backend_get parse_entry parsed_or_miss
  load_row-cached file bytes w h json = simp (calm, h, json)

  unless_expired-fresh :
      (file : StoredFile) (w : World)
      → has_expired file.expires_at w.now ≡ false
      → unless_expired env m bucket key file w ≡ (ok tt, w)
  unfolding unless_expired
  unless_expired-fresh file w h = simp h

  -- The bytes that a read of a path uses: the cache's if it has them, else the disk's, if they are
  -- too large for the cache.
  abbrev pub Serves : World → Text → Bytes → Type 0
  Serves w path stored =
      (w.cache (content_key bucket key) ≡ some stored)
      ⊎ ((w.cache (content_key bucket key) ≡ none)
          × (w.disk (env.canonical path) ≡ some stored)
          × (ltb max_cache_size (length stored) ≡ true))

  load_bytes-Serves :
      (path : Text) (stored : Bytes) (w : World)
      → Serves w path stored
      → load_bytes env m bucket key path w ≡ (ok stored, w)
  unfolding load_bytes cached_or_disk get_file_content backend_get read_disk read_or_gone
      set_file_content
  load_bytes-Serves path stored w (inl hit) = simp (calm, hit)
  load_bytes-Serves path stored w (inr (miss, there, big)) = simp (calm, miss, there, big)

  -- A file is read from its row, its bytes and their decoding.
  pub get_file-calm :
      (file : StoredFile) (bytes stored content : Bytes) (w : World)
      → w.cache (metadata_key bucket key) ≡ some bytes
      → env.from_slice bytes ≡ ok file
      → has_expired file.expires_at w.now ≡ false
      → Serves w file.file_path stored
      → decode_content env m file stored w ≡ (ok content, w)
      → (get_file env m bucket key w).0 ≡ ok (content, some file.content_type)
  unfolding get_file
  get_file-calm file bytes stored content w h json fresh serves decoded = rw (
    load_row-cached file bytes w h json,
    unless_expired-fresh file w fresh,
    load_bytes-Serves file.file_path stored w serves,
    decoded,
  )
