-- ===== src/Prelude/Decimal.antt =====
-- Decimal numbers: what `{}` prints for an unsigned integer, and `str::parse::<u64>`.
use Prim.Native.Nat.{ℕ, zero, suc, ◌+◌, ◌-◌, ◌*◌, ◌/◌, ◌%◌, ◌<◌}
use mathlib.Core.Path.{◌≡◌, refl}
use mathlib.Core.Bool.{◌&&◌}
use mathlib.Core.Option.{Option, none, some}
use mathlib.Core.List.{[], ◌∷◌}
use native.Mathlib.Omega.{arith}
use rust_local_storage_cdn.Prelude.Tests.{ltb, leb, ◌==◌, if◌then◌else◌}
use rust_local_storage_cdn.Prelude.Strings.{Text, str}

abbrev pub u64_mod : ℕ
u64_mod = 18446744073709551616

-- The digits of n, least significant last; a number has at most n + 1 digits.
digits_fuel : ℕ → ℕ → Text → Text
digits_fuel zero n acc = acc
digits_fuel (suc f) n acc =
    let more = digits_fuel f (n / 10) ((48 + n % 10) ∷ acc) in
    if ltb n 10 then (48 + n) ∷ acc else more

unfoldable pub decimal : ℕ → Text
unfolding digits_fuel
decimal n = digits_fuel (suc n) n []

-- A digit that takes the value past u64::MAX is an error, as it is in the standard library.
unfoldable pub parse_digits : ℕ → Text → Option ℕ
parse_digits acc [] = some acc
parse_digits acc (c ∷ s) =
    let next = parse_digits (acc * 10 + (c - 48)) s in
    if leb 48 c && leb c 57 && ltb (acc * 10 + (c - 48)) u64_mod then next else none

-- A sole sign and an empty text are errors; one leading `+` is accepted.
unfoldable pub parse_u64 : Text → Option ℕ
unfolding parse_digits
parse_u64 [] = none
parse_u64 (c ∷ []) = if c == b'+' then none else parse_digits 0 (c ∷ [])
parse_u64 (c ∷ (d ∷ s)) = if c == b'+' then parse_digits 0 (d ∷ s) else parse_digits 0 (c ∷ d ∷ s)

parse_digits-lt :
    (acc : ℕ) (s : Text) (n : ℕ) → acc < u64_mod → parse_digits acc s ≡ some n → n < u64_mod
unfolding parse_digits
parse_digits-lt acc [] n h e = ground arith
parse_digits-lt acc (c ∷ s) n h e = ground (arith, parse_digits-lt (acc * 10 + (c - 48)) s n)

-- A parsed number fits in 64 bits.
pub parse_u64-lt : (s : Text) (n : ℕ) → parse_u64 s ≡ some n → n < u64_mod
unfolding parse_u64
parse_u64-lt [] n e = cc
parse_u64-lt (c ∷ []) n e = ground (arith, parse_digits-lt 0 (c ∷ []) n)
parse_u64-lt (c ∷ (d ∷ s)) n e =
    ground (arith, parse_digits-lt 0 (d ∷ s) n, parse_digits-lt 0 (c ∷ d ∷ s) n)

decimal_4096 : decimal 4096 ≡ str "4096"
unfolding decimal
decimal_4096 = refl

parse_u64_tests : (parse_u64 (str "+20") ≡ some 20) × (parse_u64 (str "1x") ≡ none)
unfolding parse_u64
parse_u64_tests = (refl, refl)
