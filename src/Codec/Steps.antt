-- ===== src/Codec/Steps.antt =====
-- One `read` of a streaming decoder that ends without an error.
use rust_local_storage_cdn.Prelude.{
  ℕ, zero, suc, ◌≤◌, ◌<◌, Bytes, none, [], ◌∷◌, length, take, drop, ok, ◌≡◌, refl, arith,
}
use rust_local_storage_cdn.Codec.{Codec, IsCodec, Stream, read}

-- A stream of these bytes, with no error behind them.
abbrev pub whole : Bytes → Stream
whole bs = record { bytes = bs; error = none }

pub read-whole_nil : (c : Codec) (n : ℕ) → read c n (whole []) ≡ ok ([], whole [])
unfolding read
read-whole_nil c n = refl

split_at :
    (c : Codec) (n k b : ℕ) (bs : Bytes)
    → c.read_size n (length (b ∷ bs)) ≡ k
    → read c n (whole (b ∷ bs)) ≡ ok (take k (b ∷ bs), whole (drop k (b ∷ bs)))
unfolding read
split_at c n k b bs h = rw (← h) refl

-- Where bytes are left, a read gives at least one of them and no more than its buffer holds.
pub read-whole_cons :
    (c : Codec)
    → IsCodec c
    → (n b : ℕ) (bs : Bytes) → 0 < n
    → (j : ℕ) × (suc j ≤ n)
      × (j ≤ length bs)
      × (read c n (whole (b ∷ bs)) ≡ ok (b ∷ take j bs, whole (drop j bs)))
read-whole_cons c law n b bs h = go (c.read_size n (suc (length bs))) refl
  where
    go :
        (k : ℕ)
        → c.read_size n (suc (length bs)) ≡ k
        → (j : ℕ) × (suc j ≤ n)
          × (j ≤ length bs)
          × (read c n (whole (b ∷ bs)) ≡ ok (b ∷ take j bs, whole (drop j bs)))
    go zero e = absurd (omega (arith, e, law.read_progress n (suc (length bs)) h (omega arith)))
    go (suc j) e = (
      j,
      omega (arith, e, law.read_buffer n (suc (length bs))),
      omega (arith, e, law.read_left n (suc (length bs))),
      split_at c n (suc j) b bs e,
    )
