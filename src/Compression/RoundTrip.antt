-- ===== src/Compression/RoundTrip.antt =====
-- Compressed content comes back, whole or a range of it.
use rust_local_storage_cdn.Prelude.{
  ℕ, ◌<◌, Bytes, true, some, ◌∷◌, length, take, drop, ℤ, ok, ◌≡◌, ap, ◌⊎◌, inl, inr, arith,
  and_then, and_then-eq-ok, map_err-eq-ok, suc, [],
}
use rust_local_storage_cdn.Config.{CompressionConfig}
use rust_local_storage_cdn.Codec.{Codec, IsCodec}
use rust_local_storage_cdn.Codec.Steps.{whole}
use rust_local_storage_cdn.Compression.{
  tagged, compress, compress_gzip, compress_zstd, decompress, decompress_gzip, decompress_zstd,
}
use rust_local_storage_cdn.Compression.Range.{decompress_range, read_range}
use rust_local_storage_cdn.Compression.Laws.{zstd_loop-whole, skip_loop-whole, fill_loop-whole}

-- How `compress` can have succeeded: not at all, or with the tag of the format that it used.
abbrev Compressed : Codec → ℤ → Bytes → Bytes → Type 0
Compressed c level content out =
    (out ≡ content)
    ⊎ ((z : Bytes) × (out ≡ 1 ∷ z) × (c.gzip_encode level content ≡ ok z))
    ⊎ ((z : Bytes) × (out ≡ 2 ∷ z) × (c.zstd_encode level content ≡ ok z))

from_gzip :
    (c : Codec) (cfg : CompressionConfig) (content out : Bytes)
    → and_then (compress_gzip c cfg content) (tagged 1) ≡ ok out
    → (z : Bytes) × (out ≡ 1 ∷ z) × (c.gzip_encode cfg.level content ≡ ok z)
unfolding compress_gzip
from_gzip c cfg content out h =
    let (z, encoded, last) = and_then-eq-ok _ _ h in (z, cc, map_err-eq-ok _ _ encoded)

from_zstd :
    (c : Codec) (cfg : CompressionConfig) (content out : Bytes)
    → and_then (compress_zstd c cfg content) (tagged 2) ≡ ok out
    → (z : Bytes) × (out ≡ 2 ∷ z) × (c.zstd_encode cfg.level content ≡ ok z)
unfolding compress_zstd
from_zstd c cfg content out h =
    let (z, encoded, last) = and_then-eq-ok _ _ h in (z, cc, map_err-eq-ok _ _ encoded)

compress_cases :
    (c : Codec) (cfg : CompressionConfig) (content out : Bytes)
    → compress c cfg content ≡ ok out
    → Compressed c cfg.level content out
unfolding compress
compress_cases c cfg content out h =
    ground (arith, from_gzip c cfg content out, from_zstd c cfg content out)

module _ (c : Codec) (law : IsCodec c) where
  decompress_gzip-whole :
      (z content : Bytes) → c.gzip_decoder z ≡ whole content → decompress_gzip c z ≡ ok content
  unfolding decompress_gzip
  decompress_gzip-whole z content h = rw h

  decompress_zstd-whole :
      (z content : Bytes) → c.zstd_decoder z ≡ ok (whole content) → decompress_zstd c z ≡ ok content
  unfolding decompress_zstd
  decompress_zstd-whole z content h =
      rw (h, zstd_loop-whole c law (suc (length content)) [] content (omega arith))

  read_range-whole :
      (start len : ℕ) (content : Bytes)
      → read_range c start len (whole content) ≡ ok (some (take len (drop start content)))
  unfolding read_range
  read_range-whole start len content = rw (
    skip_loop-whole c law start start content (omega arith),
    fill_loop-whole c law len len [] (drop start content) (omega arith),
  )

  -- With a lawful codec: content that `compress` made shorter, under any writer's settings, is what `decompress` gives
  -- back, whenever the reader has compression enabled.
  pub decompress-compress :
      (cfg reader : CompressionConfig) (content out : Bytes)
      → reader.enabled ≡ true
      → compress c cfg content ≡ ok out
      → length out < length content
      → decompress c reader out ≡ ok content
  unfolding decompress
  decompress-compress cfg reader content out on done shorter =
      elim (compress_cases c cfg content out done) [
        | inl same ↦ absurd (omega (arith, ap length same))
        | inr (inl (z, tag, encoded)) ↦
            rw (tag, on)
              (decompress_gzip-whole z content (law.gzip_law cfg.level content z encoded))
        | inr (inr (z, tag, encoded)) ↦
            rw (tag, on)
              (decompress_zstd-whole z content (law.zstd_law cfg.level content z encoded))
      ]

  -- With a lawful codec: decoding a range of content that `compress` made shorter gives the slice of the content that the range names,
  -- however the decoder cuts its output into reads.
  pub decompress_range-compress :
      (cfg : CompressionConfig) (content out : Bytes) (start len : ℕ)
      → compress c cfg content ≡ ok out
      → length out < length content
      → decompress_range c out start len ≡ ok (some (take len (drop start content)))
  unfolding decompress_range
  decompress_range-compress cfg content out start len done shorter =
      elim (compress_cases c cfg content out done) [
        | inl same ↦ absurd (omega (arith, ap length same))
        | inr (inl (z, tag, encoded)) ↦
            rw (tag, law.gzip_law cfg.level content z encoded) (read_range-whole start len content)
        | inr (inr (z, tag, encoded)) ↦
            rw (tag, law.zstd_law cfg.level content z encoded) (read_range-whole start len content)
      ]
