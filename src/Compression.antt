-- ===== src/Compression.antt =====
-- local-storage/src/compression.rs: `CompressionManager`. The text of a codec's error is passed on
-- behind the source's prefix.
pub mod Range
pub mod Laws
pub mod RoundTrip
use rust_local_storage_cdn.Prelude.{
  ℕ, zero, suc, Text, Bytes, str, text_eq, Bool, not, ◌||◌, ◌&&◌, Option, none, some, List, [], ◌∷◌,
  ◌++◌, length, ltb, leb, ◌==◌, if◌then◌else◌, Result, ok, err, map_err, and_then,
}
use rust_local_storage_cdn.Errors.{StorageError, StorageResult}
use rust_local_storage_cdn.Config.{CompressionConfig}
use rust_local_storage_cdn.Codec.{Codec, Stream, read}

abbrev pub gzip_name : Text
gzip_name = str "gzip"

abbrev pub zstd_name : Text
zstd_name = str "zstd"

abbrev is_empty : Bytes → Bool
is_empty [] = Bool.true
is_empty (b ∷ bs) = Bool.false

pub unsupported : Text → StorageError
unsupported algorithm =
    StorageError.compression (str "Unsupported compression algorithm: " ++ algorithm)

abbrev tagged : ℕ → Bytes → StorageResult Bytes
tagged tag out = ok (tag ∷ out)

unfoldable pub compress_gzip : Codec → CompressionConfig → Bytes → StorageResult Bytes
compress_gzip c cfg content =
    map_err (λ e. StorageError.compression (str "Gzip compression failed: " ++ e))
      (c.gzip_encode cfg.level content)

unfoldable pub compress_zstd : Codec → CompressionConfig → Bytes → StorageResult Bytes
compress_zstd c cfg content =
    map_err (λ e. StorageError.compression (str "Zstd compression failed: " ++ e))
      (c.zstd_encode cfg.level content)

-- The first byte tells the formats apart: 1 is gzip, 2 is zstd.
unfoldable pub compress : Codec → CompressionConfig → Bytes → StorageResult Bytes
unfolding compress_gzip compress_zstd
compress c cfg content =
    if not cfg.enabled || (ltb (length content) cfg.min_size || is_empty content)
    then ok content
    else if text_eq cfg.algorithm gzip_name
    then and_then (compress_gzip c cfg content) (tagged 1)
    else if text_eq cfg.algorithm zstd_name
    then and_then (compress_zstd c cfg content) (tagged 2)
    else err (unsupported cfg.algorithm)

-- `read_to_end` of the standard library: all that the decoder yields, or its error.
abbrev read_to_end : Stream → Result Text Bytes
read_to_end s = elim s.error [ none ↦ ok s.bytes | some e ↦ err e ]

unfoldable pub decompress_gzip : Codec → Bytes → StorageResult Bytes
decompress_gzip c content =
    map_err (λ e. StorageError.compression (str "Gzip decompression failed: " ++ e))
      (read_to_end (c.gzip_decoder content))

-- The loop of `decompress_zstd`, in 4 KB chunks; a `read` that gives something shortens what is
-- left, so one round more than the decoded length is enough.
unfoldable pub zstd_loop : Codec → ℕ → Bytes → Stream → Result Text Bytes
zstd_loop c zero acc s = ok acc
zstd_loop c (suc f) acc s = elim (read c 4096 s) [
  | err e ↦ err e
  | ok ([], s') ↦ ok acc
  | ok (b ∷ bs, s') ↦ zstd_loop c f (acc ++ (b ∷ bs)) s'
]

abbrev zstd_all : Codec → Stream → Result Text Bytes
zstd_all c s = zstd_loop c (suc (length s.bytes)) [] s

unfoldable pub decompress_zstd : Codec → Bytes → StorageResult Bytes
decompress_zstd c content =
    and_then
      (map_err (λ e. StorageError.compression (str "Failed to create zstd decoder: " ++ e))
        (c.zstd_decoder content))
      (λ s.
        map_err (λ e. StorageError.compression (str "Zstd decompression failed: " ++ e))
          (zstd_all c s))

abbrev or_original : Bytes → StorageResult Bytes → StorageResult Bytes
or_original content (ok out) = ok out
or_original content (err e) = ok content

abbrev has_gzip_magic : Bytes → Bool
has_gzip_magic (a ∷ (b ∷ rest)) = (a == 0x1f) && (b == 0x8b)
has_gzip_magic _ = Bool.false

-- The legacy part of `decompress`, for data without a format byte.
unfoldable pub decompress_legacy : Codec → CompressionConfig → Bytes → StorageResult Bytes
decompress_legacy c cfg content =
    if text_eq cfg.algorithm gzip_name
    then if has_gzip_magic content then decompress_gzip c content else ok content
    else if text_eq cfg.algorithm zstd_name
    then or_original content (decompress_zstd c content)
    else err (unsupported cfg.algorithm)

abbrev decompress_tagged : Codec → CompressionConfig → Bytes → StorageResult Bytes
decompress_tagged c cfg [] = ok []
decompress_tagged c cfg (format ∷ content) =
    if format == 1
    then decompress_gzip c content
    else if format == 2
    then decompress_zstd c content
    else decompress_legacy c cfg (format ∷ content)

unfoldable pub decompress : Codec → CompressionConfig → Bytes → StorageResult Bytes
unfolding decompress_gzip decompress_zstd decompress_legacy zstd_loop
decompress c cfg content = if not cfg.enabled then ok content else decompress_tagged c cfg content

pub should_compress : CompressionConfig → ℕ → Bool
should_compress cfg size = cfg.enabled && leb cfg.min_size size
