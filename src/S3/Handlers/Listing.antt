-- ===== src/S3/Handlers/Listing.antt =====
-- What a page of ListObjectsV2 shows of the table.
use Prim.Native.Nat.{min}
use mathlib.Core.List.{Perm}
use rust_local_storage_cdn.Prelude.{
  none, ◌∙◌, ◌++◌, drop, length-drop, some, ℕ, zero, suc, ◌+◌, ◌≤◌, Text, Option, List, [], ◌∷◌,
  map, filter, length, length-take, take, ltb, ◌&&◌, text_eq, ok, ℤ, pos, negsuc, ◌≡◌, refl, arith,
  unwrap_or, ap,
}
use rust_local_storage_cdn.Models.{StoredFile, file_info}
use rust_local_storage_cdn.World.{World, Env, IsCalm, select_files}
use rust_local_storage_cdn.Database.{newest_first, list_files, has_prefix}
use rust_local_storage_cdn.Database.Order.{
  IsNewestFirst, newest_first-Perm, newest_first-IsNewestFirst,
}
use rust_local_storage_cdn.Storage.Buckets.{list_file_infos}
use rust_local_storage_cdn.Handlers.Download.{AppState}
use rust_local_storage_cdn.S3.Auth.{Hashes, Request}
use rust_local_storage_cdn.S3.Xml.{Web, Document, Content, ListBucketResult}
use rust_local_storage_cdn.S3.Handlers.{
  ListObjectsQuery, page_size, clamp, content_entry, listing, verify, xml_response, list_objects_v2,
}

-- The rows that a listing is about, newest first.
abbrev matching : Env → Text → Option Text → World → List StoredFile
matching env bucket prefix w =
    newest_first (filter (λ row. text_eq row.bucket bucket && has_prefix env prefix row) w.files)

clamp-bounds : (z : ℤ) → (1 ≤ clamp z) × (clamp z ≤ 1000)
clamp-bounds (pos zero) = (omega arith, omega arith)
clamp-bounds (pos (suc n)) = (omega arith, omega arith)
clamp-bounds (negsuc n) = (omega arith, omega arith)

take-take : {A : Type 0} (n m : ℕ) (xs : List A) → n ≤ m → take n (take m xs) ≡ take n xs
take-take zero m xs h = refl
take-take (suc n) zero xs h = absurd (omega arith)
take-take (suc n) (suc m) [] h = refl
take-take (suc n) (suc m) (x ∷ xs) h = ap (λ ys. x ∷ ys) (take-take n m xs (omega arith))

longer-take :
    {A : Type 0} (n : ℕ) (xs : List A) → ltb n (length (take (n + 1) xs)) ≡ ltb n (length xs)
longer-take n xs = rw (length-take (n + 1) xs) (ground arith)

take-map : {A B : Type 0} (f : A → B) (n : ℕ) (xs : List A) → take n (map f xs) ≡ map f (take n xs)
take-map f zero xs = refl
take-map f (suc n) [] = refl
take-map f (suc n) (x ∷ xs) = ap (λ ys. f x ∷ ys) (take-map f n xs)

length-map : {A B : Type 0} (f : A → B) (xs : List A) → length (map f xs) ≡ length xs
length-map f [] = refl
length-map f (x ∷ xs) = omega (arith, length-map f xs)

-- The first rows of a list, as the page shows them.
abbrev pub page : Web → ℕ → List StoredFile → List Content
page web n rows = map (content_entry web) (map file_info (take n rows))

listing-page :
    (web : Web) (bucket : Text) (query : ListObjectsQuery) (rows : List StoredFile)
    → ((listing web bucket query (map file_info (take (page_size query + 1) rows))).contents
        ≡ page web (page_size query) rows)
      × ((listing web bucket query (map file_info (take (page_size query + 1) rows))).is_truncated
          ≡ ltb (page_size query) (length rows))
      × ((listing web bucket query (map file_info (take (page_size query + 1) rows))).key_count
          ≤ page_size query)
unfolding listing
listing-page web bucket query rows = (
  rw
      (
        take-map file_info (page_size query) (take (page_size query + 1) rows),
        take-take (page_size query) (page_size query + 1) rows (omega arith),
      )
      refl,
  rw (length-map file_info (take (page_size query + 1) rows)) (longer-take (page_size query) rows),
  rw (length-take (page_size query) (map file_info (take (page_size query + 1) rows)))
      (omega arith),
)

take-drop : {A : Type 0} (n : ℕ) (xs : List A) → take n xs ++ drop n xs ≡ xs
take-drop zero xs = refl
take-drop (suc n) [] = refl
take-drop (suc n) (x ∷ xs) = ap (λ ys. x ∷ ys) (take-drop n xs)

no_rest : {A : Type 0} (n : ℕ) (xs : List A) → ltb n (length xs) ≡ ltb 0 (length (drop n xs))
no_rest n xs = ground (arith, length-drop n xs)

-- How many rows are asked for: 1000 at most and if nothing is said, and one at least.
abbrev pub rows_asked : Option ℤ → ℕ
rows_asked none = 1000
rows_asked (some (pos (suc n))) = min (suc n) 1000
rows_asked (some z) = 1

page_size-rows_asked : (query : ListObjectsQuery) → page_size query ≡ rows_asked query.max_keys
unfolding page_size
page_size-rows_asked query = go query.max_keys
  where
    go : (z : Option ℤ) → clamp (unwrap_or z (pos 1000)) ≡ rows_asked z
    go none = refl
    go (some (pos zero)) = refl
    go (some (pos (suc n))) = refl
    go (some (negsuc n)) = refl

-- An accepted ListObjectsV2, where no outside call fails, lists the first of the rows of the bucket
-- whose keys match the prefix by LIKE, in an order in which none was uploaded after one before it;
-- every such row is shown or left, once. As many rows are shown as there are, up to the number that is
-- asked for, which counts as 1 if it is below and as 1000 if it is above or not given; and the listing
-- says that it is truncated exactly when a row is left.
pub list_objects_v2-page :
    (env : Env) (calm : IsCalm env) (h : Hashes) (web : Web) (state : AppState) (r : Request)
    (bucket : Text) (query : ListObjectsQuery) (w : World)
    → verify h state r w ≡ (ok tt, w)
    → (result : ListBucketResult) × (shown : List StoredFile) × (left : List StoredFile)
      × (list_objects_v2 env h web state r bucket query w
          ≡ (ok (xml_response web (Document.list_bucket result)), w))
      × (result.contents ≡ map (content_entry web) (map file_info shown))
      × Perm
          (shown ++ left)
          (filter (λ row. text_eq row.bucket bucket && has_prefix env query.prefix row) w.files)
      × IsNewestFirst (shown ++ left)
      × (result.is_truncated ≡ ltb 0 (length left))
      × (length shown ≡ min (rows_asked query.max_keys) (length (shown ++ left)))
unfolding list_objects_v2 list_file_infos list_files
list_objects_v2-page env calm h web state r bucket query w accepted =
    let rows = matching env bucket query.prefix w in
    let found =
      filter (λ row. text_eq row.bucket bucket && has_prefix env query.prefix row) w.files in
    let n = page_size query in
    let (shown, more, few) = listing-page web bucket query rows in
    let whole = take-drop n rows in
    (
      listing web bucket query (map file_info (take (n + 1) rows)),
      take n rows,
      drop n rows,
      rw (accepted, calm select_files),
      shown,
      rw whole (newest_first-Perm found),
      rw whole (newest_first-IsNewestFirst found),
      more ∙ no_rest n rows,
      rw (whole, length-take n rows, page_size-rows_asked query) refl,
    )
