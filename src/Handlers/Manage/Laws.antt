-- ===== src/Handlers/Manage/Laws.antt =====
-- The life of an encryption key, and a search that names the empty bucket.
use rust_local_storage_cdn.Prelude.{
  ℕ, Text, text_eq, text_eq_iff, text_eq_refl, Bool, true, false, Option, none, some, List, [], ◌∷◌,
  ◌++◌, any, map, find, ok, err, ◌≡◌, arith, if◌then◌else◌, refl, Bool-cases, sym, ◌∙◌, length, ◌+◌,
  suc, Result-cases, inl, inr,
}
use rust_local_storage_cdn.Errors.{StorageResult}
use rust_local_storage_cdn.Models.{EncryptionKey}
use rust_local_storage_cdn.World.{World, Env, IsCalm, select_key}
use rust_local_storage_cdn.Crypto.{EncryptionAlgorithm, from_str, as_str}
use rust_local_storage_cdn.Keys.{
  is_active_key, unknown_key, or_unknown, deactivated, get_key, create_key, deactivate_key,
  generate_key_id, sample_characters,
}
use rust_local_storage_cdn.Database.Search.{Folding}
use rust_local_storage_cdn.Storage.Manage.{
  create_encryption_key, search_file_infos, deactivate_encryption_key,
}
use rust_local_storage_cdn.Handlers.Download.{
  AppState, require_download_token, download_is_authorized,
}
use rust_local_storage_cdn.Handlers.Manage.{SearchQuery, search_files}

abbrev has_id : Text → EncryptionKey → Bool
has_id key_id key = text_eq key.key_id key_id

find-snoc :
    (key : EncryptionKey) (keys : List EncryptionKey)
    → find (has_id key.key_id) keys ≡ none
    → key.is_active ≡ some true
    → find (is_active_key key.key_id) (keys ++ key ∷ []) ≡ some key
find-snoc key [] h active = rw (text_eq_refl key.key_id, active)
find-snoc key (k ∷ keys) h active = ground (arith, find-snoc key keys)

find-deactivated :
    (key_id k : Text) (now : ℕ) (keys : List EncryptionKey)
    → find (is_active_key k) (map (deactivated key_id now) keys)
      ≡ (if text_eq key_id k then none else find (is_active_key k) keys)
find-deactivated key_id k now [] = ground arith
find-deactivated key_id k now (key ∷ keys) = ground (
  arith,
  find-deactivated key_id k now keys,
  text_eq_iff key.key_id k,
  text_eq_iff key.key_id key_id,
  text_eq_iff key_id k,
)

or_unknown-world :
    (k : Text) (o : Option EncryptionKey) (w1 w2 : World)
    → (or_unknown k o w1).0 ≡ (or_unknown k o w2).0
or_unknown-world k none w1 w2 = refl
or_unknown-world k (some key) w1 w2 = refl

-- The key that a creation makes, and the state after it.
abbrev new_key : Env → EncryptionAlgorithm → Option Text → World → EncryptionKey
new_key env algorithm description w = record {
  id = length w.keys + 1;
  key_id = sample_characters env 32 w.drawn;
  key_data = env.random_key (w.drawn + 32);
  algorithm = as_str algorithm;
  created_at = some w.now;
  updated_at = some w.now;
  is_active = some true;
  description = description;
}

abbrev with_key : EncryptionKey → World → World
with_key key w = record w { keys = w.keys ++ key ∷ []; drawn = suc (w.drawn + 32) }

same_outcome :
    (key key' : EncryptionKey) (w w' : World)
    → Path (StorageResult EncryptionKey × World) (ok key, w) (ok key', w')
    → (key' ≡ key) × (w' ≡ w)
same_outcome key key' w w' h = (cc, cc)

module _ (env : Env) (calm : IsCalm env) where
  created :
      (algorithm : Text) (description : Option Text) (alg : EncryptionAlgorithm) (w : World)
      → from_str algorithm ≡ ok alg
      → create_encryption_key env algorithm description w
        ≡ (ok (new_key env alg description w), with_key (new_key env alg description w) w)
  unfolding create_encryption_key create_key generate_key_id
  created algorithm description alg w h = simp (calm, h)

  used :
      (key : EncryptionKey) (w : World)
      → find (has_id key.key_id) w.keys ≡ none
      → key.is_active ≡ some true
      → get_key env key.key_id (with_key key w) ≡ (ok key, with_key key w)
  unfolding get_key
  used key w new active = rw (calm (select_key key.key_id), find-snoc key w.keys new active)

  -- Where no call fails: a key that was created under an id that was not there is the one that is used
  -- for that id.
  pub create_encryption_key-get_key :
      (algorithm : Text) (description : Option Text) (key : EncryptionKey) (w w' : World)
      → find (has_id (sample_characters env 32 w.drawn)) w.keys ≡ none
      → create_encryption_key env algorithm description w ≡ (ok key, w')
      → get_key env key.key_id w' ≡ (ok key, w')
  unfolding create_encryption_key
  create_encryption_key-get_key algorithm description key w w' new h =
      elim (Result-cases (from_str algorithm)) [
        | inl (alg, parsed) ↦
            let (is_key, is_world) =
              same_outcome _ key _ w' (sym (created algorithm description alg w parsed) ∙ h) in
            rw (is_key, is_world) (used (new_key env alg description w) w new refl)
        | inr (e, bad) ↦ let h' = rw bad at h in cc
      ]

  -- Where no call fails: after a key was deactivated, asking for its id is refused, and every other id
  -- is answered as before.
  pub deactivate_encryption_key-get_key :
      (key_id k : Text) (w : World)
      → (get_key env k (deactivate_encryption_key env key_id w).1).0
        ≡ (if text_eq key_id k then err (unknown_key k) else (get_key env k w).0)
  unfolding deactivate_encryption_key deactivate_key get_key
  deactivate_encryption_key-get_key key_id k w = elim (Bool-cases (text_eq key_id k)) [
    | inl here ↦ simp (calm, find-deactivated, here)
    | inr other ↦
        simp (calm, find-deactivated, other)
          (or_unknown-world k (find (is_active_key k) w.keys) _ w)
  ]

open_search :
    (token : Option Text) (names : List Text)
    → any (λ name. text_eq name []) names ≡ false
    → download_is_authorized token (some names) (some []) none ≡ true
unfolding download_is_authorized
open_search none names h = refl
open_search (some expected) names h = rw h

-- Where a list of protected buckets is configured that does not name the empty one: a search that
-- gives the empty name as its bucket needs no token, and answers as a search of every bucket.
pub search_files-empty_bucket :
    (env : Env) (state : AppState) (f : Folding) (query : SearchQuery) (names : List Text)
    (w : World)
    → state.protected_read_buckets ≡ some names
    → any (λ name. text_eq name []) names ≡ false
    → query.bucket ≡ some []
    → search_files env state f query none w ≡ search_file_infos env f none query.query query.limit w
unfolding search_files require_download_token search_file_infos
search_files-empty_bucket env state f query names w listed unnamed empty =
    rw (listed, empty, open_search state.download_protection_token names unnamed)
