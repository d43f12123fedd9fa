-- ===== src/S3/Auth/Compare.antt =====
-- `constant_time_eq` of local-storage/src/s3/auth.rs: the differences of all bytes are collected before
-- the result is read. `^` and `|` on a byte are written out by bits.
use rust_local_storage_cdn.Prelude.{
  ℕ, zero, suc, ◌+◌, ◌*◌, ◌/◌, ◌%◌, ◌<◌, Bytes, Bool, true, false, not, ◌&&◌, [], ◌∷◌, length, ◌==◌,
  if◌then◌else◌, ◌≡◌, ◌↔◌, refl, arith,
}

unfoldable pub xor_bits : (bits a b : ℕ) → ℕ
xor_bits zero a b = 0
xor_bits (suc n) a b =
    let rest = xor_bits n (a / 2) (b / 2) in (if a % 2 == b % 2 then 0 else 1) + 2 * rest

unfoldable pub or_bits : (bits a b : ℕ) → ℕ
or_bits zero a b = 0
or_bits (suc n) a b =
    let rest = or_bits n (a / 2) (b / 2) in (if a % 2 == 0 && b % 2 == 0 then 0 else 1) + 2 * rest

-- `for (x, y) in a.iter().zip(b.iter()) { diff |= x ^ y; }`
unfoldable pub differences : ℕ → Bytes → Bytes → ℕ
differences diff [] b = diff
differences diff (x ∷ a) [] = diff
differences diff (x ∷ a) (y ∷ b) = differences (or_bits 8 diff (xor_bits 8 x y)) a b

unfoldable pub constant_time_eq : Bytes → Bytes → Bool
unfolding differences
constant_time_eq a b = if not (length a == length b) then false else differences 0 a b == 0

-- Every byte is below 256.
abbrev pub IsBytes : Bytes → Type 0
IsBytes [] = Unit
IsBytes (x ∷ xs) = (x < 256) × IsBytes xs

-- 2 ^ n
abbrev width : ℕ → ℕ
width zero = 1
width (suc n) = width n + width n

xor_bits-lt : (n a b : ℕ) → xor_bits n a b < width n
unfolding xor_bits
xor_bits-lt zero a b = omega arith
xor_bits-lt (suc n) a b = ground (arith, xor_bits-lt n (a / 2) (b / 2))

or_bits-lt : (n a b : ℕ) → or_bits n a b < width n
unfolding or_bits
or_bits-lt zero a b = omega arith
or_bits-lt (suc n) a b = ground (arith, or_bits-lt n (a / 2) (b / 2))

xor_bits-zero : (n a b : ℕ) → a < width n → b < width n → xor_bits n a b ≡ 0 → a ≡ b
unfolding xor_bits
xor_bits-zero zero a b h k e = omega arith
xor_bits-zero (suc n) a b h k e = ground (arith, xor_bits-zero n (a / 2) (b / 2))

xor_bits-same : (n a : ℕ) → xor_bits n a a ≡ 0
unfolding xor_bits
xor_bits-same zero a = refl
xor_bits-same (suc n) a = ground (arith, xor_bits-same n (a / 2))

or_bits-zero : (n a b : ℕ) → a < width n → b < width n → or_bits n a b ≡ 0 → (a ≡ 0) × (b ≡ 0)
unfolding or_bits
or_bits-zero zero a b h k e = (omega arith, omega arith)
or_bits-zero (suc n) a b h k e = ground (arith, or_bits-zero n (a / 2) (b / 2))

differences-zero :
    (diff : ℕ) (a b : Bytes)
    → diff < 256
    → IsBytes a
    → IsBytes b
    → length a ≡ length b
    → differences diff a b ≡ 0
    → (diff ≡ 0) × (a ≡ b)
unfolding differences
differences-zero diff [] [] h p q l e = (e, refl)
differences-zero diff [] (y ∷ b) h p q l e = absurd (omega (arith, l))
differences-zero diff (x ∷ a) [] h p q l e = absurd (omega (arith, l))
differences-zero diff (x ∷ a) (y ∷ b) h p q l e =
    let (none_so_far, same) =
      differences-zero (or_bits 8 diff (xor_bits 8 x y)) a b (or_bits-lt 8 diff (xor_bits 8 x y))
        p.1 q.1 (omega (arith, l)) e in
    let (clear, equal) = or_bits-zero 8 diff (xor_bits 8 x y) h (xor_bits-lt 8 x y) none_so_far in
    let heads = xor_bits-zero 8 x y p.0 q.0 equal in (clear, cc)

differences-same : (a : Bytes) → differences 0 a a ≡ 0
unfolding differences or_bits
differences-same [] = refl
differences-same (x ∷ a) = rw (xor_bits-same 8 x) (differences-same a)

-- On numbers below 256, the comparison says whether the two sequences are equal.
pub constant_time_eq_iff :
    (a b : Bytes) → IsBytes a → IsBytes b → (constant_time_eq a b ≡ true) ↔ (a ≡ b)
unfolding constant_time_eq
constant_time_eq_iff a b p q = (
  λ h. (differences-zero 0 a b (omega arith) p q (ground arith) (ground arith)).1,
  λ e. rw (← e) (ground (arith, differences-same a)),
)
