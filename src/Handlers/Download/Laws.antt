-- ===== src/Handlers/Download/Laws.antt =====
-- Who may read, and which bytes of the content a partial answer holds.
use rust_local_storage_cdn.Prelude.{
  [], ◌∷◌, any, Text, text_eq_iff, Bool, true, false, Option, none, some, List, err, ◌≡◌, ◌≢◌, ◌↔◌,
  ◌⊎◌, arith, refl, Bool-cases, inl, inr, ap, text_eq,
}
use rust_local_storage_cdn.World.{World, Env}
use rust_local_storage_cdn.Handlers.Download.{
  in_scope, download_is_authorized, require_download_token, AppState, handle_file_request,
  token_required,
}

-- A name that a list does not hold.
abbrev pub IsOutside : Text → List Text → Type 0
IsOutside name [] = Unit
IsOutside name (b ∷ list) = (b ≢ name) × IsOutside name list

IsOutside-any :
    (name : Text) (list : List Text)
    → (any (λ b. text_eq b name) list ≡ false) ↔ IsOutside name list
IsOutside-any name [] = (λ h. tt, λ h. refl)
IsOutside-any name (b ∷ list) = (
  λ h. (ground (arith, h, text_eq_iff b name), (IsOutside-any name list).0 (ground (arith, h))),
  λ (ne, rest). ground (arith, ne, text_eq_iff b name, (IsOutside-any name list).1 rest),
)

in_scope-false :
    (buckets : Option (List Text)) (requested : Option Text)
    → (in_scope buckets requested ≡ false) ↔ (
        (list : List Text) × (name : Text) × (buckets ≡ some list)
        × (requested ≡ some name)
        × IsOutside name list)
in_scope-false none requested = ground arith
in_scope-false (some list) none = ground arith
in_scope-false (some list) (some name) = (
  λ h. (list, name, refl, refl, (IsOutside-any name list).0 h),
  λ (l, n, is_list, is_name, out).
      let one : list ≡ l = cc in
      let same : name ≡ n = cc in rw (one, same) ((IsOutside-any n l).1 out),
)

authorized_iff :
    (expected : Option Text) (buckets : Option (List Text)) (requested provided : Option Text)
    → (download_is_authorized expected buckets requested provided ≡ true) ↔ (
        (expected ≡ none)
        ⊎ (in_scope buckets requested ≡ false)
        ⊎ ((token : Text) × (expected ≡ some token) × (provided ≡ some token)))
unfolding download_is_authorized
authorized_iff none buckets requested provided = ground arith
authorized_iff (some t) buckets requested none = ground arith
authorized_iff (some t) buckets requested (some p) = (
  λ h. elim (Bool-cases (in_scope buckets requested)) [
    | inl inside ↦ inr (inr (t, refl, ap some ((text_eq_iff p t).0 (rw inside at h))))
    | inr outside ↦ inr (inl outside)
  ],
  λ h. ground (arith, h, text_eq_iff p t),
)

abbrev IsInside : Text → List Text → Type 0
IsInside name [] = ⊥
IsInside name (b ∷ list) = (b ≡ name) ⊎ IsInside name list

-- The buckets that need the token: those of the list, all where there is no list, and a request that
-- names none.
abbrev pub IsCovered : Option (List Text) → Option Text → Type 0
IsCovered none bucket = Unit
IsCovered (some list) none = Unit
IsCovered (some list) (some name) = IsInside name list

inside-any :
    (name : Text) (list : List Text) → IsInside name list → any (λ b. text_eq b name) list ≡ true
inside-any name [] h = absurd h
inside-any name (b ∷ list) (inl here) = ground (arith, here, text_eq_iff b name)
inside-any name (b ∷ list) (inr later) = ground (arith, inside-any name list later)

pub IsCovered-in_scope :
    (buckets : Option (List Text)) (bucket : Option Text)
    → IsCovered buckets bucket
    → in_scope buckets bucket ≡ true
IsCovered-in_scope none bucket h = refl
IsCovered-in_scope (some list) none h = refl
IsCovered-in_scope (some list) (some name) h = inside-any name list h

-- A read is allowed exactly when no token is set, or protection is restricted to a list of buckets and
-- the request names a bucket that is not in the list, or the request brings the token. So a request
-- that names no bucket needs the token, and without a list every request does.
pub download_is_authorized_iff :
    (expected : Option Text) (buckets : Option (List Text)) (requested provided : Option Text)
    → (download_is_authorized expected buckets requested provided ≡ true) ↔ (
        (expected ≡ none)
        ⊎ ((list : List Text) × (name : Text) × (buckets ≡ some list)
            × (requested ≡ some name)
            × IsOutside name list)
        ⊎ ((token : Text) × (expected ≡ some token) × (provided ≡ some token)))
download_is_authorized_iff expected buckets requested provided =
    let (there, back) = authorized_iff expected buckets requested provided in
    let (out, inside) = in_scope-false buckets requested in
    (
      λ h. elim (there h) [
        | inl off ↦ inl off
        | inr (inl outside) ↦ inr (inl (out outside))
        | inr (inr token) ↦ inr (inr token)
      ],
      λ h. elim h [
        | inl off ↦ back (inl off)
        | inr (inl outside) ↦ back (inr (inl (inside outside)))
        | inr (inr token) ↦ back (inr (inr token))
      ],
    )

refused :
    (expected : Text) (buckets : Option (List Text)) (requested token : Option Text)
    → in_scope buckets requested ≡ true
    → token ≢ some expected
    → download_is_authorized (some expected) buckets requested token ≡ false
unfolding download_is_authorized
refused expected buckets requested none inside wrong = rw inside
refused expected buckets requested (some p) inside wrong = elim (Bool-cases (text_eq p expected)) [
  | inl same ↦ absurd (wrong (ap some ((text_eq_iff p expected).0 same)))
  | inr differs ↦ rw (inside, differs)
]

pub require_download_token-refused :
    (state : AppState) (bucket token : Option Text) (expected : Text)
    → state.download_protection_token ≡ some expected
    → in_scope state.protected_read_buckets bucket ≡ true
    → token ≢ some expected
    → require_download_token state bucket token ≡ err token_required
unfolding require_download_token
require_download_token-refused state bucket token expected set inside wrong =
    rw (set, refused expected state.protected_read_buckets bucket token inside wrong)

-- A request for a protected bucket without the token is refused before anything is read or changed.
pub handle_file_request-forbidden :
    (env : Env) (header_value : Text → Bool) (state : AppState) (bucket path : Text)
    (token range : Option Text) (w : World) (expected : Text)
    → state.download_protection_token ≡ some expected
    → in_scope state.protected_read_buckets (some bucket) ≡ true
    → token ≢ some expected
    → handle_file_request env header_value state bucket path token range w ≡ (err token_required, w)
unfolding handle_file_request
handle_file_request-forbidden env header_value state bucket path token range w expected set inside
      wrong =
    rw (require_download_token-refused state (some bucket) token expected set inside wrong)
