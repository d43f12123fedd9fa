-- ===== src/Prelude/Strings.antt =====
-- Rust's `String` and `Vec<u8>`: lists of bytes. A literal of the source is `str "..."`.
use Prim.Native.Nat.{ℕ, zero, suc}
use Prim.Native.Char.{code}
use Prim.Native.String.{String}
use mathlib.Core.Bool.{Bool, true, false, ◌&&◌, ◌||◌}
use mathlib.Core.Option.{Option, none, some}
use mathlib.Core.List.{List, [], ◌∷◌, ◌++◌, reverse}
use rust_local_storage_cdn.Prelude.Tests.{◌==◌, leb, if◌then◌else◌}
use rust_local_storage_cdn.Prelude.Lists.{length}

abbrev pub Bytes : Type 0
Bytes = List ℕ

abbrev pub Text : Type 0
Text = List ℕ

-- The bytes of an ASCII literal.
abbrev pub str : String → Text
str String.[] = []
str (String.◌∷◌ c s) = code c ∷ str s

unfoldable pub text_eq : Text → Text → Bool
text_eq [] [] = true
text_eq [] (b ∷ bs) = false
text_eq (a ∷ as') [] = false
text_eq (a ∷ as') (b ∷ bs) = a == b && text_eq as' bs

-- `str::strip_prefix`: the rest after the prefix, if it is there.
unfoldable pub strip_prefix : Text → Text → Option Text
strip_prefix [] s = some s
strip_prefix (p ∷ ps) [] = none
strip_prefix (p ∷ ps) (c ∷ s) = let rest = strip_prefix ps s in if p == c then rest else none

unfoldable pub starts_with : Text → Text → Bool
unfolding strip_prefix
starts_with p s = elim (strip_prefix p s) [ none ↦ false | some _ ↦ true ]

unfoldable pub strip_suffix : Text → Text → Option Text
unfolding strip_prefix
strip_suffix p s = elim (strip_prefix (reverse p) (reverse s)) [
  | none ↦ none
  | some r ↦ some (reverse r)
]

unfoldable pub ends_with : Text → Text → Bool
unfolding strip_suffix
ends_with p s = elim (strip_suffix p s) [ none ↦ false | some _ ↦ true ]

-- `str::contains` of one byte.
unfoldable pub contains : ℕ → Text → Bool
contains c [] = false
contains c (d ∷ s) = c == d || contains c s

abbrev push_left : ℕ → Option (Text × Text) → Option (Text × Text)
push_left d none = none
push_left d (some (a, b)) = some (d ∷ a, b)

-- `str::split_once` at one byte.
unfoldable pub split_once : ℕ → Text → Option (Text × Text)
split_once c [] = none
split_once c (d ∷ s) =
    let rest = push_left d (split_once c s) in if c == d then some ([], s) else rest

abbrev cons_head : ℕ → List Text → List Text
cons_head d [] = (d ∷ []) ∷ []
cons_head d (w ∷ ws) = (d ∷ w) ∷ ws

-- `str::split` at one byte: always at least one part.
unfoldable pub split : ℕ → Text → List Text
split c [] = [] ∷ []
split c (d ∷ s) = let rest = split c s in if c == d then [] ∷ rest else cons_head d rest

-- `Vec<String>::join`.
unfoldable pub join : Text → List Text → Text
join sep [] = []
join sep (w ∷ []) = w
join sep (w ∷ (v ∷ ws)) = w ++ (sep ++ join sep (v ∷ ws))

-- ASCII white space, as `str::trim` sees it in header and environment text.
abbrev pub is_space : ℕ → Bool
is_space c = c == 32 || (leb 9 c && leb c 13)

unfoldable pub trim_start : Text → Text
trim_start [] = []
trim_start (c ∷ s) = let rest = trim_start s in if is_space c then rest else c ∷ s

unfoldable pub trim : Text → Text
unfolding trim_start
trim s = reverse (trim_start (reverse (trim_start s)))

-- `str::trim_start_matches` of one byte.
unfoldable pub trim_start_byte : ℕ → Text → Text
trim_start_byte b [] = []
trim_start_byte b (c ∷ s) = let rest = trim_start_byte b s in if c == b then rest else c ∷ s

-- `str::trim_end_matches`: strips the suffix as often as it is there. Each strip of a non-empty
-- suffix shortens the text, so its length is enough fuel.
trim_end_fuel : ℕ → Text → Text → Text
trim_end_fuel zero p s = s
trim_end_fuel (suc f) p s = elim (strip_suffix p s) [ none ↦ s | some r ↦ trim_end_fuel f p r ]

unfoldable pub trim_end_matches : Text → Text → Text
unfolding trim_end_fuel strip_suffix
trim_end_matches p s = trim_end_fuel (length s) p s

-- The last part of a split: `key.split('/').last().unwrap_or(key)`.
unfoldable pub last_or : Text → List Text → Text
last_or d [] = d
last_or d (w ∷ ws) = last_or w ws
