-- ===== src/Database/Order.antt =====
-- ORDER BY upload_time DESC: what the order of the rows of a listing is, and that none is lost.
use mathlib.Core.List.{Perm}
use mathlib.Core.List.Perm
use rust_local_storage_cdn.Prelude.{
  ℕ, ◌≤◌, true, false, Bool-cases, inl, inr, Option, none, some, List, [], ◌∷◌, ◌≡◌, arith,
}
use rust_local_storage_cdn.Models.{StoredFile}
use rust_local_storage_cdn.Database.{newer, insert_newest, newest_first, not_before}

-- The upload time of a row is not after that of another; the rows without one come first.
abbrev IsNotAfter : Option ℕ → Option ℕ → Type 0
IsNotAfter t none = Unit
IsNotAfter none (some u) = ⊥
IsNotAfter (some t) (some u) = t ≤ u

abbrev AllNotAfter : StoredFile → List StoredFile → Type 0
AllNotAfter file [] = Unit
AllNotAfter file (row ∷ rows) = IsNotAfter row.upload_time file.upload_time × AllNotAfter file rows

-- No row was uploaded after one that stands before it.
abbrev pub IsNewestFirst : List StoredFile → Type 0
IsNewestFirst [] = Unit
IsNewestFirst (row ∷ rows) = AllNotAfter row rows × IsNewestFirst rows

not_before-true : (t u : Option ℕ) → not_before t u ≡ true → IsNotAfter u t
not_before-true none none h = tt
not_before-true none (some u) h = tt
not_before-true (some t) none h = cc
not_before-true (some t) (some u) h = ground (arith, h)

not_before-false : (t u : Option ℕ) → not_before t u ≡ false → IsNotAfter t u
not_before-false none none h = tt
not_before-false none (some u) h = cc
not_before-false (some t) none h = tt
not_before-false (some t) (some u) h = ground (arith, h)

IsNotAfter-trans : (t u v : Option ℕ) → IsNotAfter t u → IsNotAfter u v → IsNotAfter t v
IsNotAfter-trans t u none h k = tt
IsNotAfter-trans t none (some v) h k = absurd k
IsNotAfter-trans none (some u) (some v) h k = h
IsNotAfter-trans (some t) (some u) (some v) h k = omega arith

below :
    (file row : StoredFile) (rows : List StoredFile)
    → IsNotAfter row.upload_time file.upload_time
    → AllNotAfter row rows
    → AllNotAfter file rows
below file row [] h k = tt
below file row (r ∷ rows) h (first, rest) = (
  IsNotAfter-trans r.upload_time row.upload_time file.upload_time first h,
  below file row rows h rest,
)

inserted-below :
    (top file : StoredFile) (rows : List StoredFile)
    → IsNotAfter file.upload_time top.upload_time
    → AllNotAfter top rows
    → AllNotAfter top (insert_newest file rows)
unfolding insert_newest
inserted-below top file [] h k = (h, tt)
inserted-below top file (row ∷ rows) h (first, rest) = elim (Bool-cases (newer file row)) [
  | inl before ↦ rw before (h, (first, rest))
  | inr after ↦ rw after (first, inserted-below top file rows h rest)
]

insert_newest-IsNewestFirst :
    (file : StoredFile) (rows : List StoredFile)
    → IsNewestFirst rows
    → IsNewestFirst (insert_newest file rows)
unfolding insert_newest
insert_newest-IsNewestFirst file [] h = (tt, tt)
insert_newest-IsNewestFirst file (row ∷ rows) (top, rest) = elim (Bool-cases (newer file row)) [
  | inl before ↦
      let first = not_before-true file.upload_time row.upload_time before in
      rw before ((first, below file row rows first top), (top, rest))
  | inr after ↦ rw after (
    inserted-below row file rows (not_before-false file.upload_time row.upload_time after) top,
    insert_newest-IsNewestFirst file rows rest,
  )
]

pub newest_first-IsNewestFirst : (rows : List StoredFile) → IsNewestFirst (newest_first rows)
unfolding newest_first
newest_first-IsNewestFirst [] = tt
newest_first-IsNewestFirst (row ∷ rows) =
    insert_newest-IsNewestFirst row (newest_first rows) (newest_first-IsNewestFirst rows)

insert_newest-Perm :
    (file : StoredFile) (rows : List StoredFile) → Perm (insert_newest file rows) (file ∷ rows)
unfolding insert_newest
insert_newest-Perm file [] = Perm.refl (file ∷ [])
insert_newest-Perm file (row ∷ rows) = elim (Bool-cases (newer file row)) [
  | inl before ↦ rw before (Perm.refl (file ∷ row ∷ rows))
  | inr after ↦
      rw after (Perm.trans (Perm.cons row (insert_newest-Perm file rows)) (Perm.swap file row rows))
]

pub newest_first-Perm : (rows : List StoredFile) → Perm (newest_first rows) rows
unfolding newest_first
newest_first-Perm [] = Perm.refl []
newest_first-Perm (row ∷ rows) =
    Perm.trans (insert_newest-Perm row (newest_first rows)) (Perm.cons row (newest_first-Perm rows))
