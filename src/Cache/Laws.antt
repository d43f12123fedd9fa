-- ===== src/Cache/Laws.antt =====
-- Which cache entries are whose.
use rust_local_storage_cdn.Prelude.{ℕ, Text, false, [], ◌∷◌, ◌++◌, contains, ◌≡◌, refl, arith}
use rust_local_storage_cdn.Cache.{content_key}

-- A text without the separator before the first separator.
before_separator :
    (c : ℕ) (a b k l : Text)
    → contains c a ≡ false
    → contains c b ≡ false
    → a ++ (c ∷ k) ≡ b ++ (c ∷ l)
    → (a ≡ b) × (k ≡ l)
unfolding contains
before_separator c [] [] k l h g e = (refl, cc)
before_separator c [] (y ∷ b) k l h g e = ground arith
before_separator c (x ∷ a) [] k l h g e = ground arith
before_separator c (x ∷ a) (y ∷ b) k l h g e =
    let (same, rest) = before_separator c a b k l (ground arith) (ground arith) cc in (cc, rest)

-- Two objects whose bucket names have no colon share a content entry only if they are the same
-- object.
pub content_key-injective :
    (b k b' k' : Text)
    → contains b':' b ≡ false
    → contains b':' b' ≡ false
    → content_key b k ≡ content_key b' k'
    → (b ≡ b') × (k ≡ k')
unfolding content_key
content_key-injective b k b' k' h g e = before_separator b':' b b' k k' h g cc
