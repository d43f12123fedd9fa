-- ===== src/Prelude/Int.antt =====
-- Signed integers, as the source's i32 and i64 hold them, and `str::parse::<i64>`.
use Prim.Native.Nat.{ℕ, zero, suc}
use mathlib.Core.Path.{◌≡◌, refl}
use mathlib.Core.Bool.{Bool, true, false}
use mathlib.Core.Option.{Option, none, some}
use mathlib.Core.List.{[], ◌∷◌}
use rust_local_storage_cdn.Prelude.Tests.{leb, ◌==◌, if◌then◌else◌}
use rust_local_storage_cdn.Prelude.Strings.{Text, str}
use rust_local_storage_cdn.Prelude.Decimal.{parse_digits}

-- `negsuc n` is -(n + 1).
pub data ℤ : Type 0 where
  pos : ℕ → ℤ
  negsuc : ℕ → ℤ

abbrev pub is_positive : ℤ → Bool
is_positive (pos zero) = false
is_positive (pos (suc n)) = true
is_positive (negsuc n) = false

abbrev pub magnitude : ℤ → ℕ
magnitude (pos n) = n
magnitude (negsuc n) = suc n

abbrev pub i64_max : ℕ
i64_max = 9223372036854775807

abbrev negated : ℕ → ℤ
negated zero = pos 0
negated (suc n) = negsuc n

abbrev positive_i64 : Option ℕ → Option ℤ
positive_i64 none = none
positive_i64 (some n) = if leb n i64_max then some (pos n) else none

abbrev negative_i64 : Option ℕ → Option ℤ
negative_i64 none = none
negative_i64 (some n) = if leb n (suc i64_max) then some (negated n) else none

-- A sole sign and an empty text are errors, and so is what is out of range; one leading sign is
-- accepted.
unfoldable pub parse_i64 : Text → Option ℤ
parse_i64 [] = none
parse_i64 (c ∷ []) =
    if c == b'+' then none else if c == b'-' then none else positive_i64 (parse_digits 0 (c ∷ []))
parse_i64 (c ∷ (d ∷ s)) =
    if c == b'+'
    then positive_i64 (parse_digits 0 (d ∷ s))
    else if c == b'-'
    then negative_i64 (parse_digits 0 (d ∷ s))
    else positive_i64 (parse_digits 0 (c ∷ d ∷ s))

parse_i64_tests :
    (parse_i64 (str "60") ≡ some (pos 60))
    × (parse_i64 (str "-5") ≡ some (negsuc 4))
    × (parse_i64 (str "-") ≡ none)
    × (parse_i64 (str "9223372036854775808") ≡ none)
    × (parse_i64 (str "-9223372036854775808") ≡ some (negsuc i64_max))
unfolding parse_i64 parse_digits
parse_i64_tests = (refl, refl, refl, refl, refl)
