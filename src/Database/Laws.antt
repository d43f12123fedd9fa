-- ===== src/Database/Laws.antt =====
-- What the statements of local-storage/src/database.rs do to the table, as lookups see it.
use rust_local_storage_cdn.Prelude.{
  Text, text_eq, text_eq_iff, true, false, ◌&&◌, Option, none, some, List, [], ◌∷◌, if◌then◌else◌,
  Bool-cases, inl, inr, ◌≡◌, ◌↔◌, refl, arith,
}
use rust_local_storage_cdn.Models.{StoredFile}
use rust_local_storage_cdn.Database.{is_at, lookup, upsert, overwrite, inserted, without}

pub is_at_iff :
    (bucket key : Text) (row : StoredFile)
    → (is_at bucket key row ≡ true) ↔ ((row.bucket ≡ bucket) × (row.key ≡ key))
is_at_iff bucket key row = ground (arith, text_eq_iff row.bucket bucket, text_eq_iff row.key key)

-- The row that a save leaves at its key.
abbrev pub placed : StoredFile → Option StoredFile → StoredFile
placed new none = inserted new
placed new (some old) = overwrite new old

-- A save changes what is found at its own key, and nothing that is found at another.
pub lookup-upsert :
    (bucket key : Text) (new : StoredFile) (rows : List StoredFile)
    → lookup bucket key (upsert new rows) ≡ (
        if is_at bucket key new
        then some (placed new (lookup new.bucket new.key rows))
        else lookup bucket key rows)
unfolding lookup upsert
lookup-upsert bucket key new [] = ground arith
lookup-upsert bucket key new (row ∷ rows) = ground (
  arith,
  lookup-upsert bucket key new rows,
  is_at_iff bucket key new,
  is_at_iff bucket key row,
  is_at_iff new.bucket new.key row,
)

pub lookup-without :
    (bucket key b k : Text) (rows : List StoredFile)
    → lookup b k (without bucket key rows)
      ≡ (if text_eq bucket b && text_eq key k then none else lookup b k rows)
unfolding lookup without
lookup-without bucket key b k [] = ground arith
lookup-without bucket key b k (row ∷ rows) = ground (
  arith,
  lookup-without bucket key b k rows,
  text_eq_iff bucket b,
  text_eq_iff key k,
  text_eq_iff row.bucket bucket,
  text_eq_iff row.key key,
  text_eq_iff row.bucket b,
  text_eq_iff row.key k,
)

-- No two rows have the same bucket and key.
abbrev pub IsUnique : List StoredFile → Type 0
IsUnique [] = Unit
IsUnique (row ∷ rows) = (lookup row.bucket row.key rows ≡ none) × IsUnique rows

is_at_symm :
    (row new : StoredFile)
    → is_at new.bucket new.key row ≡ false
    → is_at row.bucket row.key new ≡ false
is_at_symm row new h = ground (
  arith,
  text_eq_iff row.bucket new.bucket,
  text_eq_iff row.key new.key,
  text_eq_iff new.bucket row.bucket,
  text_eq_iff new.key row.key,
)

lookup-upsert_absent :
    (bucket key : Text) (new : StoredFile) (rows : List StoredFile)
    → is_at bucket key new ≡ false
    → lookup bucket key rows ≡ none
    → lookup bucket key (upsert new rows) ≡ none
lookup-upsert_absent bucket key new rows other absent =
    ground (arith, lookup-upsert bucket key new rows)

-- Saving a row keeps the rows unique: the conflict clause updates where it would insert.
pub upsert-IsUnique :
    (new : StoredFile) (rows : List StoredFile) → IsUnique rows → IsUnique (upsert new rows)
unfolding upsert
upsert-IsUnique new [] h = (unfold lookup in refl, tt)
upsert-IsUnique new (row ∷ rows) h = elim (Bool-cases (is_at new.bucket new.key row)) [
  | inl hit ↦ rw hit h
  | inr miss ↦ rw miss (
    lookup-upsert_absent row.bucket row.key new rows (is_at_symm row new miss) h.0,
    upsert-IsUnique new rows h.1,
  )
]

filter_subset :
    (bucket key b k : Text) (rows : List StoredFile)
    → lookup b k rows ≡ none
    → lookup b k (without bucket key rows) ≡ none
filter_subset bucket key b k rows h = ground (arith, lookup-without bucket key b k rows)

-- Deleting a row keeps the rows unique.
pub without-IsUnique :
    (bucket key : Text) (rows : List StoredFile)
    → IsUnique rows
    → IsUnique (without bucket key rows)
unfolding without
without-IsUnique bucket key [] h = tt
without-IsUnique bucket key (row ∷ rows) h = elim (Bool-cases (is_at bucket key row)) [
  | inl hit ↦ rw hit (without-IsUnique bucket key rows h.1)
  | inr miss ↦
      rw miss
        (filter_subset bucket key row.bucket row.key rows h.0, without-IsUnique bucket key rows h.1)
]
