-- ===== src/Handlers/Range.antt =====
-- `parse_range_header` of local-storage/src/handlers/file_handlers.rs: one range of a `Range` header.
use rust_local_storage_cdn.Prelude.{
  ℕ, ◌-◌, ◌≤◌, ◌<◌, Text, str, text_eq, ◌||◌, Option, none, some, [], contains, split_once,
  strip_prefix, parse_u64, ltb, leb, ◌==◌, if◌then◌else◌, ◌≡◌, arith, Bool-cases, inl, inr,
}
use Prim.Native.Nat.{min}

-- The last `n` bytes, which may be more than there are.
unfoldable pub suffix_range : (total_len : ℕ) → Option ℕ → Option (ℕ × ℕ)
suffix_range total_len none = none
suffix_range total_len (some n) =
    if n == 0 || total_len == 0 then none else some (total_len - n, total_len - 1)

abbrev end_of : (total_len : ℕ) → Text → Option ℕ
end_of total_len end_str = if text_eq end_str [] then some (total_len - 1) else parse_u64 end_str

unfoldable pub bounded_range : (total_len : ℕ) → Option ℕ → Option ℕ → Option (ℕ × ℕ)
bounded_range total_len (some start) (some end) =
    if ltb end start || leb total_len start then none else some (start, min end (total_len - 1))
bounded_range total_len _ _ = none

abbrev range_of : (total_len : ℕ) → Option (Text × Text) → Option (ℕ × ℕ)
range_of total_len none = none
range_of total_len (some (start_str, end_str)) =
    if text_eq start_str []
    then suffix_range total_len (parse_u64 end_str)
    else bounded_range total_len (parse_u64 start_str) (end_of total_len end_str)

abbrev range_in : (total_len : ℕ) → Option Text → Option (ℕ × ℕ)
range_in total_len none = none
range_in total_len (some spec) =
    if contains b',' spec then none else range_of total_len (split_once b'-' spec)

-- A range of several parts, or a malformed one, is none.
unfoldable pub parse_range_header : Text → (total_len : ℕ) → Option (ℕ × ℕ)
unfolding suffix_range bounded_range
parse_range_header value total_len = range_in total_len (strip_prefix (str "bytes=") value)

suffix_range-bounds :
    (total_len : ℕ) (n : Option ℕ) (start end : ℕ)
    → suffix_range total_len n ≡ some (start, end)
    → (start ≤ end) × (end < total_len)
unfolding suffix_range
suffix_range-bounds total_len n start end h = ground arith

bounded_range-bounds :
    (total_len : ℕ) (s e : Option ℕ) (start end : ℕ)
    → bounded_range total_len s e ≡ some (start, end)
    → (start ≤ end) × (end < total_len)
unfolding bounded_range
bounded_range-bounds total_len s e start end h = ground arith

range_of-bounds :
    (total_len : ℕ) (parts : Option (Text × Text)) (start end : ℕ)
    → range_of total_len parts ≡ some (start, end)
    → (start ≤ end) × (end < total_len)
range_of-bounds total_len none start end h = cc
range_of-bounds total_len (some (a, b)) start end h = elim (Bool-cases (text_eq a [])) [
  | inl suffix ↦ suffix_range-bounds total_len (parse_u64 b) start end (rw suffix at h)
  | inr pair ↦
      bounded_range-bounds total_len (parse_u64 a) (end_of total_len b) start end (rw pair at h)
]

range_in-bounds :
    (total_len : ℕ) (spec : Option Text) (start end : ℕ)
    → range_in total_len spec ≡ some (start, end)
    → (start ≤ end) × (end < total_len)
range_in-bounds total_len none start end h = cc
range_in-bounds total_len (some spec) start end h = elim (Bool-cases (contains b',' spec)) [
  | inl several ↦ ground (arith, rw several at h)
  | inr one ↦ range_of-bounds total_len (split_once b'-' spec) start end (rw one at h)
]

-- A range that is accepted is not empty and lies within the content, whatever the header says.
pub parse_range_header-bounds :
    (value : Text) (total_len start end : ℕ)
    → parse_range_header value total_len ≡ some (start, end)
    → (start ≤ end) × (end < total_len)
unfolding parse_range_header
parse_range_header-bounds value total_len start end h =
    range_in-bounds total_len (strip_prefix (str "bytes=") value) start end h
