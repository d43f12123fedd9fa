-- ===== src/Machine/Tables.antt =====
-- What keeps the two tables consistent.
use rust_local_storage_cdn.Prelude.{
  ℕ, Text, text_eq, text_eq_iff, true, false, not, none, some, List, [], ◌∷◌, ◌++◌, any, map,
  filter, find, inl, inr, Bool-cases, ◌≡◌, refl, arith,
}
use rust_local_storage_cdn.Models.{StoredFile}
use rust_local_storage_cdn.World.{BucketRow}
use rust_local_storage_cdn.Database.{lookup, upsert, without, touch, overwrite, inserted}
use rust_local_storage_cdn.Database.Laws.{IsUnique, is_at_iff}
use rust_local_storage_cdn.Storage.Buckets.{has_name, insert_bucket_row}
use rust_local_storage_cdn.Storage.Buckets.Laws.{lookup-filter_bucket}
use rust_local_storage_cdn.Machine.{InBuckets, hash_of}

-- A touched row has the same key and the same hash.
pub lookup-touch :
    (b k : Text) (id now : ℕ) (rows : List StoredFile)
    → (lookup b k rows ≡ none → lookup b k (map (touch id now) rows) ≡ none)
      × (hash_of (lookup b k (map (touch id now) rows)) ≡ hash_of (lookup b k rows))
unfolding lookup
lookup-touch b k id now [] = (λ h. refl, refl)
lookup-touch b k id now (row ∷ rows) = ground (arith, lookup-touch b k id now rows)

pub touch-IsUnique :
    (id now : ℕ) (rows : List StoredFile) → IsUnique rows → IsUnique (map (touch id now) rows)
touch-IsUnique id now [] h = tt
touch-IsUnique id now (row ∷ rows) h =
    ground (arith, touch-IsUnique id now rows, lookup-touch row.bucket row.key id now rows)

pub touch-InBuckets :
    (id now : ℕ) (rows : List StoredFile) (buckets : List BucketRow)
    → InBuckets rows buckets
    → InBuckets (map (touch id now) rows) buckets
touch-InBuckets id now [] buckets h = tt
touch-InBuckets id now (row ∷ rows) buckets h = ground (arith, touch-InBuckets id now rows buckets)

pub without-InBuckets :
    (bucket key : Text) (rows : List StoredFile) (buckets : List BucketRow)
    → InBuckets rows buckets
    → InBuckets (without bucket key rows) buckets
unfolding without
without-InBuckets bucket key [] buckets h = tt
without-InBuckets bucket key (row ∷ rows) buckets h =
    ground (arith, without-InBuckets bucket key rows buckets)

pub upsert-InBuckets :
    (new : StoredFile) (rows : List StoredFile) (buckets : List BucketRow)
    → any (has_name new.bucket) buckets ≡ true
    → InBuckets rows buckets
    → InBuckets (upsert new rows) buckets
unfolding upsert overwrite inserted
upsert-InBuckets new [] buckets here h = (here, tt)
upsert-InBuckets new (row ∷ rows) buckets here h = ground (arith, upsert-InBuckets new rows buckets)

any-append :
    (name : Text) (xs ys : List BucketRow)
    → any (has_name name) xs ≡ true
    → any (has_name name) (xs ++ ys) ≡ true
any-append name [] ys h = cc
any-append name (x ∷ xs) ys h = ground (arith, any-append name xs ys)

any-grown :
    (name bucket : Text) (now : ℕ) (buckets : List BucketRow)
    → any (has_name name) buckets ≡ true
    → any (has_name name) (insert_bucket_row bucket now buckets) ≡ true
unfolding insert_bucket_row
any-grown name bucket now buckets h = elim (Bool-cases (any (has_name bucket) buckets)) [
  | inl here ↦ rw (here, h)
  | inr new ↦ rw new (
      any-append name buckets (record { name = bucket; created_at = now; is_active = true } ∷ []) h)
]

pub grown-InBuckets :
    (bucket : Text) (now : ℕ) (rows : List StoredFile) (buckets : List BucketRow)
    → InBuckets rows buckets
    → InBuckets rows (insert_bucket_row bucket now buckets)
grown-InBuckets bucket now [] buckets h = tt
grown-InBuckets bucket now (row ∷ rows) buckets h =
    (any-grown row.bucket bucket now buckets h.0, grown-InBuckets bucket now rows buckets h.1)

any-closed :
    (name bucket : Text) (buckets : List BucketRow)
    → text_eq name bucket ≡ false
    → any (has_name name) buckets ≡ true
    → any (has_name name) (filter (λ (row : BucketRow). not (has_name bucket row)) buckets) ≡ true
any-closed name bucket [] other h = h
any-closed name bucket (row ∷ rows) other h = ground (
  arith,
  any-closed name bucket rows,
  text_eq_iff row.name name,
  text_eq_iff row.name bucket,
  text_eq_iff name bucket,
)

pub closed-InBuckets :
    (bucket : Text) (rows : List StoredFile) (buckets : List BucketRow)
    → InBuckets rows buckets
    → InBuckets
        (filter (λ (row : StoredFile). not (text_eq row.bucket bucket)) rows)
        (filter (λ (row : BucketRow). not (has_name bucket row)) buckets)
closed-InBuckets bucket [] buckets h = tt
closed-InBuckets bucket (row ∷ rows) buckets h =
    ground (arith, closed-InBuckets bucket rows buckets, any-closed row.bucket bucket buckets)

pub filter-IsUnique :
    (bucket : Text) (rows : List StoredFile)
    → IsUnique rows
    → IsUnique (filter (λ (row : StoredFile). not (text_eq row.bucket bucket)) rows)
filter-IsUnique bucket [] h = tt
filter-IsUnique bucket (row ∷ rows) h =
    ground (arith, filter-IsUnique bucket rows, lookup-filter_bucket bucket row.bucket row.key rows)

-- A row that a search by hash finds is the row of its own key.
pub find-lookup :
    (hash : Text) (rows : List StoredFile) (file : StoredFile)
    → IsUnique rows
    → find (λ row. text_eq row.hash_blake3 hash) rows ≡ some file
    → (lookup file.bucket file.key rows ≡ some file) × (file.hash_blake3 ≡ hash)
unfolding lookup
find-lookup hash [] file u h = cc
find-lookup hash (row ∷ rows) file u h = ground (
  arith,
  find-lookup hash rows file,
  is_at_iff file.bucket file.key row,
  text_eq_iff row.hash_blake3 hash,
)
