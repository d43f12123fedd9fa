-- ===== src/Storage/Fetch/RangeRead.antt =====
-- A byte range of a compressed file is decoded to the same bytes as the whole file's.
use rust_local_storage_cdn.Prelude.{
  ℕ, ◌+◌, ◌-◌, ◌≤◌, ◌<◌, Text, Bytes, true, false, Option, none, some, find, length, take, drop,
  ltb→lt, text_eq, ok, ◌≡◌, arith, ap, sym, ◌∙◌, inl, inr,
}
use Prim.Native.Nat.{min}
use rust_local_storage_cdn.Models.{StoredFile}
use rust_local_storage_cdn.Config.{CompressionConfig}
use rust_local_storage_cdn.Compression.{compress}
use rust_local_storage_cdn.Compression.RoundTrip.{decompress_range-compress}
use rust_local_storage_cdn.World.{World, Env, IsCalm, IsSound, read_file}
use rust_local_storage_cdn.Cache.{metadata_key}
use rust_local_storage_cdn.Storage.Disk.{read_disk}
use rust_local_storage_cdn.Storage.Encode.{StorageManager, StoreOptions, upload_compression}
use rust_local_storage_cdn.Storage.Encode.Laws.{compress_stage_cases, encrypt_stage_cases}
use rust_local_storage_cdn.Storage.Store.{store_file, stored_row}
use rust_local_storage_cdn.Storage.Store.Laws.{written_here, path_here, after_store, written}
use rust_local_storage_cdn.Storage.Store.New.{IsStored, store_file-IsStored}
use rust_local_storage_cdn.Storage.Fetch.{
  compressed_span, finish_range, get_compressed_file_range, empty_range,
}
use rust_local_storage_cdn.Storage.Fetch.Laws.{load_row-cached}
use rust_local_storage_cdn.Storage.Fetch.RoundTrip.{warmed-metadata}

clamp_inside : (total end : ℕ) → end < total → min end (total - 1) ≡ end
clamp_inside total end h = ground arith

module _ (env : Env) (calm : IsCalm env) (sound : IsSound env) (m : StorageManager)
    (bucket key : Text) where
  compressed_span-calm :
      (cfg : CompressionConfig) (file : StoredFile) (squeezed content : Bytes) (start end : ℕ)
      (w : World)
      → w.disk (env.canonical file.file_path) ≡ some squeezed
      → compress env.codec cfg content ≡ ok squeezed
      → length squeezed < length content
      → file.original_size ≡ length content
      → end < length content
      → (compressed_span env m bucket key file start end w).0
        ≡ ok (some (take (end - start + 1) (drop start content), file.content_type, length content))
  unfolding compressed_span read_disk finish_range
  compressed_span-calm cfg file squeezed content start end w there packed shorter size inside = rw (
    calm (read_file file.file_path),
    there,
    size,
    clamp_inside (length content) end inside,
    decompress_range-compress env.codec sound.codec_law cfg content squeezed start (end - start + 1)
        packed shorter,
  )

  get_compressed_file_range-calm :
      (cfg : CompressionConfig) (file : StoredFile) (bytes squeezed content : Bytes) (start end : ℕ)
      (w : World)
      → w.cache (metadata_key bucket key) ≡ some bytes
      → env.from_slice bytes ≡ ok file
      → file.is_compressed ≡ some true
      → file.is_encrypted ≡ some false
      → w.disk (env.canonical file.file_path) ≡ some squeezed
      → compress env.codec cfg content ≡ ok squeezed
      → length squeezed < length content
      → file.original_size ≡ length content
      → start ≤ end
      → end < length content
      → (get_compressed_file_range env m bucket key start end w).0
        ≡ ok (some (take (end - start + 1) (drop start content), file.content_type, length content))
  unfolding get_compressed_file_range compressed_span finish_range
  get_compressed_file_range-calm cfg file bytes squeezed content start end w cached parsed packed
        plain there done shorter size order inside =
      let fits : empty_range env m bucket key file.original_size start end ≡ false =
        rw (size, clamp_inside (length content) end inside) (ground arith) in
      rw (load_row-cached env calm m bucket key file bytes w cached parsed, plain, packed, fits)
        (compressed_span-calm cfg file squeezed content start end w there done shorter size inside)

  squeezed_by :
      (content : Bytes) (content_type : Option Text) (opts : StoreOptions) (file : StoredFile)
      (w w' : World) (s : IsStored env calm sound m bucket key content content_type opts file w w')
      → file.is_compressed ≡ some true
      → (compress env.codec (upload_compression m opts) content ≡ ok s.squeezed)
        × (length s.squeezed < length content)
  unfolding stored_row
  squeezed_by content content_type opts file w w' s packed =
      let flag : some s.compressed ≡ some true =
        sym (ap (λ (f : StoredFile). f.is_compressed) s.is_row) ∙ packed in
      elim (compress_stage_cases env m opts content s.squeezed s.compressed s.first) [
        | inl (off, same) ↦ absurd (ground (arith, flag, off))
        | inr (on, done, shorter) ↦ (done, ltb→lt _ _ shorter)
      ]

  unsealed :
      (content : Bytes) (content_type : Option Text) (opts : StoreOptions) (file : StoredFile)
      (w w' : World) (s : IsStored env calm sound m bucket key content content_type opts file w w')
      → file.is_encrypted ≡ some false
      → s.stored ≡ s.squeezed
  unfolding stored_row
  unsealed content content_type opts file w w' s plain =
      let flag : some s.encrypted ≡ some false =
        sym (ap (λ (f : StoredFile). f.is_encrypted) s.is_row) ∙ plain in
      elim (encrypt_stage_cases env calm sound m opts s.squeezed s.stored s.encrypted s.before
        s.between s.second) [
          | inl (off, same) ↦ same
          | inr (alg, on, parsed, sealed) ↦ absurd (ground (arith, flag, on))
        ]

  there :
      (content : Bytes) (content_type : Option Text) (opts : StoreOptions) (file : StoredFile)
      (w w' : World) (s : IsStored env calm sound m bucket key content content_type opts file w w')
      → written env
          (path_here env calm m bucket key)
          s.stored
          s.between.disk
          (env.canonical file.file_path)
        ≡ some s.stored
  unfolding stored_row
  there content content_type opts file w w' s =
      let path = path_here env calm m bucket key in
      ap (λ p. written env path s.stored s.between.disk (env.canonical p))
        (ap (λ (f : StoredFile). f.file_path) s.is_row)
      ∙ written_here env path s.stored s.between.disk

  -- Where no outside call fails and the crates keep their promises: after content that no row holds yet was stored compressed and not
  -- encrypted, a range read of its key, at any later time, that lies within the content gives the
  -- bytes of the content from the start to the end of the range, the row's content type and the length of the content.
  pub get_compressed_file_range-store_file :
      (content : Bytes) (content_type : Option Text) (opts : StoreOptions) (file : StoredFile)
      (w w' : World) (later start end : ℕ)
      → find (λ row. text_eq row.hash_blake3 (env.blake3 content)) w.files ≡ none
      → store_file env m bucket key content content_type opts w ≡ (ok file, w')
      → file.is_compressed ≡ some true
      → file.is_encrypted ≡ some false
      → start ≤ end
      → end < length content
      → (get_compressed_file_range env m bucket key start end (record w' { now = later })).0
        ≡ ok (some (take (end - start + 1) (drop start content), file.content_type, length content))
  unfolding stored_row
  get_compressed_file_range-store_file content content_type opts file w w' later start end fresh h
        packed plain order inside =
      let s =
        store_file-IsStored env calm sound m bucket key content content_type opts file w w' fresh
          h in
      let (done, shorter) = squeezed_by content content_type opts file w w' s packed in
      let same = unsealed content content_type opts file w w' s plain in
      rw s.after (
        get_compressed_file_range-calm (upload_compression m opts) file s.row_bytes s.squeezed
          content start end
          (record (after_store env calm m bucket key file s.row_bytes s.stored s.between) {
            now = later;
          })
          (warmed-metadata env calm sound m bucket key s.row_bytes s.stored s.between.cache)
          s.parsed packed plain (there content content_type opts file w w' s ∙ ap some same) done
          shorter (ap (λ (f : StoredFile). f.original_size) s.is_row) order inside)
