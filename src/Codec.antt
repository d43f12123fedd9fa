-- ===== src/Codec.antt =====
-- The compression libraries that local-storage/src/compression.rs calls (flate2 and zstd), as a
-- record of operations, with the documented behaviour that the theorems rely on.
pub mod Steps
use rust_local_storage_cdn.Prelude.{
  ℕ, ◌≤◌, ◌<◌, Text, Bytes, Option, none, some, [], ◌∷◌, length, take, drop, ℤ, Result, ok, err,
  ◌≡◌,
}

-- What a streaming decoder yields: the decoded bytes, and the error that it stops with, if any.
pub record Stream : Type 0 where
  pub bytes : Bytes
  pub error : Option Text

pub record Codec : Type 0 where
  pub gzip_encode : ℤ → Bytes → Result Text Bytes
  pub zstd_encode : ℤ → Bytes → Result Text Bytes
  pub gzip_decoder : Bytes → Stream
  pub zstd_decoder : Bytes → Result Text Stream
  -- how many bytes one `read` gives, of a buffer and of what is left
  pub read_size : ℕ → ℕ → ℕ

-- `Read::read`: at the end of the bytes it gives 0 bytes, or the decoder's error.
abbrev pub at_end : Option Text → Stream → Result Text (Bytes × Stream)
at_end none s = ok ([], s)
at_end (some e) s = err e

abbrev pub read_some : Codec → ℕ → Bytes → Stream → Result Text (Bytes × Stream)
read_some c n [] s = at_end s.error s
read_some c n (b ∷ bs) s =
    let k = c.read_size n (length (b ∷ bs)) in
    ok (take k (b ∷ bs), record { bytes = drop k (b ∷ bs); error = s.error })

unfoldable pub read : Codec → ℕ → Stream → Result Text (Bytes × Stream)
read c n s = read_some c n s.bytes s

-- Encoders produce what their decoder gives back, and `read` makes progress within its buffer.
pub record IsCodec (c : Codec) : Type 0 where
  pub gzip_law :
      (level : ℤ) (data' out : Bytes)
      → c.gzip_encode level data' ≡ ok out
      → c.gzip_decoder out ≡ record { bytes = data'; error = none }
  pub zstd_law :
      (level : ℤ) (data' out : Bytes)
      → c.zstd_encode level data' ≡ ok out
      → c.zstd_decoder out ≡ ok (record { bytes = data'; error = none })
  pub read_progress : (n left : ℕ) → 0 < n → 0 < left → 0 < c.read_size n left
  pub read_buffer : (n left : ℕ) → c.read_size n left ≤ n
  pub read_left : (n left : ℕ) → c.read_size n left ≤ left
