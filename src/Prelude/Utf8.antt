-- ===== src/Prelude/Utf8.antt =====
-- `std::str::from_utf8`: which bytes are UTF-8.
use Prim.Native.Nat.{ℕ, zero, suc}
use mathlib.Core.Path.{◌≡◌, refl}
use mathlib.Core.Bool.{Bool, false, ◌&&◌}
use mathlib.Core.Option.{Option, none, some}
use mathlib.Core.List.{[], ◌∷◌}
use rust_local_storage_cdn.Prelude.Tests.{leb, ltb, ◌==◌, if◌then◌else◌}
use rust_local_storage_cdn.Prelude.Strings.{Text, Bytes, str}

-- What a first byte asks for: how many bytes follow, and the range of the first of them.
abbrev follow : ℕ → Option (ℕ × ℕ × ℕ)
follow c =
    if ltb c 128
    then some (0, 128, 191)
    else if ltb c 194
    then none
    else if ltb c 224
    then some (1, 128, 191)
    else if c == 224
    then some (2, 160, 191)
    else if c == 237
    then some (2, 128, 159)
    else if ltb c 240
    then some (2, 128, 191)
    else if c == 240
    then some (3, 144, 191)
    else if ltb c 244
    then some (3, 128, 191)
    else if c == 244
    then some (3, 128, 143)
    else none

-- `pending` bytes of a character are still to come, the next one between `low` and `high`.
abbrev next_state : (pending low high : ℕ) → ℕ → Option (ℕ × ℕ × ℕ)
next_state zero low high c = follow c
next_state (suc n) low high c = if leb low c && leb c high then some (n, 128, 191) else none

unfoldable pub is_utf8_from : Option (ℕ × ℕ × ℕ) → Bytes → Bool
is_utf8_from none s = false
is_utf8_from (some (pending, low, high)) [] = pending == 0
is_utf8_from (some (pending, low, high)) (c ∷ s) = is_utf8_from (next_state pending low high c) s

unfoldable pub from_utf8 : Bytes → Option Text
unfolding is_utf8_from
from_utf8 s = if is_utf8_from (some (0, 128, 191)) s then some s else none

from_utf8_tests :
    (from_utf8 (str "a") ≡ some (str "a"))
    × (from_utf8 (195 ∷ 169 ∷ []) ≡ some (195 ∷ 169 ∷ []))
    × (from_utf8 (195 ∷ []) ≡ none)
    × (from_utf8 (237 ∷ 160 ∷ 128 ∷ []) ≡ none)
unfolding from_utf8
from_utf8_tests = (refl, refl, refl, refl)
