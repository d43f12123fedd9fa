-- ===== src/Compression/Range.antt =====
-- `decompress_range` of local-storage/src/compression.rs: the decoded bytes before the range are
-- read and dropped in 64 KB chunks, and reading stops when the range is full.
use rust_local_storage_cdn.Prelude.{
  ℕ, zero, suc, ◌-◌, Text, Bytes, str, Option, none, some, [], ◌∷◌, ◌++◌, length, ◌==◌,
  if◌then◌else◌, Result, ok, err, map_err, and_then,
}
use Prim.Native.Nat.{min}
use rust_local_storage_cdn.Errors.{StorageError, StorageResult}
use rust_local_storage_cdn.Codec.{Codec, Stream, read}

-- `while remaining_to_skip > 0`; each round skips at least one byte or ends, so `start` rounds do.
unfoldable pub skip_loop : Codec → ℕ → ℕ → Stream → Result Text Stream
skip_loop c zero remaining s = ok s
skip_loop c (suc f) zero s = ok s
skip_loop c (suc f) (suc r) s = elim (read c (min (suc r) 65536) s) [
  | err e ↦ err e
  | ok ([], s') ↦ ok s'
  | ok (b ∷ bs, s') ↦ skip_loop c f (suc r - length (b ∷ bs)) s'
]

-- `while filled < len`, with what is still to fill; the result is cut to what was filled.
unfoldable pub fill_loop : Codec → ℕ → ℕ → Bytes → Stream → Result Text Bytes
fill_loop c zero missing acc s = ok acc
fill_loop c (suc f) zero acc s = ok acc
fill_loop c (suc f) (suc m) acc s = elim (read c (suc m) s) [
  | err e ↦ err e
  | ok ([], s') ↦ ok acc
  | ok (b ∷ bs, s') ↦ fill_loop c f (suc m - length (b ∷ bs)) (acc ++ (b ∷ bs)) s'
]

abbrev skip_error : Text → StorageError
skip_error e =
    StorageError.compression (str "Decompression failed while skipping to range start: " ++ e)

abbrev fill_error : Text → StorageError
fill_error e = StorageError.compression (str "Decompression failed while reading range: " ++ e)

unfoldable pub read_range : Codec → ℕ → ℕ → Stream → StorageResult (Option Bytes)
read_range c start len s =
    and_then (map_err skip_error (skip_loop c start start s))
      (λ s'. and_then (map_err fill_error (fill_loop c len len [] s')) (λ out. ok (some out)))

abbrev or_unsupported :
    (Stream → StorageResult (Option Bytes)) → Result Text Stream → StorageResult (Option Bytes)
or_unsupported k (ok s) = k s
or_unsupported k (err e) = ok none

unfoldable pub decompress_range : Codec → Bytes → ℕ → ℕ → StorageResult (Option Bytes)
unfolding read_range skip_loop fill_loop
decompress_range c [] start len = ok (some [])
decompress_range c (format ∷ content) start len =
    if format == 1
    then read_range c start len (c.gzip_decoder content)
    else if format == 2
    then or_unsupported (read_range c start len) (c.zstd_decoder content)
    else ok none
