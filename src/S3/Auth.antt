-- ===== src/S3/Auth.antt =====
-- local-storage/src/s3/auth.rs: the verification of AWS SigV4 signatures. The hash crates, hex and URL
-- decoding, Unicode lower case and the date format are parameters; a header is the text that
-- `HeaderValue::to_str` gives, if there is one.
pub mod Compare
pub mod Canonical
pub mod Verify
pub mod Laws
use rust_local_storage_cdn.Prelude.{
  ℕ, ◌+◌, ◌-◌, ◌/◌, ◌%◌, Text, Bytes, str, text_eq, Bool, true, false, not, ◌&&◌, ◌||◌, Option,
  none, some, List, [], ◌∷◌, ◌++◌, map, filter, ltb, leb, ◌==◌, if◌then◌else◌, Result, ok, err,
  and_then, ok_or, split, split_once, strip_prefix, starts_with, join, trim, is_space, unwrap_or,
}
use rust_local_storage_cdn.Config.{S3Config}
use rust_local_storage_cdn.S3.Errors.{
  S3Error, S3Result, access_denied, invalid_request, signature_does_not_match,
}
use rust_local_storage_cdn.S3.Auth.Compare.{constant_time_eq}

pub record Hashes : Type 0 where
  pub hmac_sha256 : (key content : Bytes) → Bytes
  pub sha256 : Bytes → Bytes
  pub hex_encode : Bytes → Text
  pub url_decode : Text → Option Text
  pub to_lowercase : Text → Text
  -- "%Y%m%dT%H%M%SZ", as microseconds
  pub parse_date : Text → Option ℕ

pub record Request : Type 0 where
  pub method : Text
  pub path : Text
  pub query : Option Text
  pub headers : Text → Option Text
  pub body : Bytes

pub record ParsedAuth : Type 0 where
  pub access_key : Text
  pub date : Text
  pub region : Text
  pub signed_headers : List Text
  pub signature : Text

-- `Ord` on texts and on pairs of texts.
unfoldable pub text_leb : Text → Text → Bool
text_leb [] t = true
text_leb (c ∷ s) [] = false
text_leb (c ∷ s) (d ∷ t) = let rest = text_leb s t in if c == d then rest else ltb c d

abbrev pair_leb : Text × Text → Text × Text → Bool
pair_leb (a, b) (c, d) = if text_eq a c then text_leb b d else text_leb a c

insert_by : {A : Type 0} → (A → A → Bool) → A → List A → List A
insert_by le x [] = x ∷ []
insert_by le x (y ∷ ys) = let rest = insert_by le x ys in if le x y then x ∷ y ∷ ys else y ∷ rest

unfoldable pub sort_by : {A : Type 0} → (A → A → Bool) → List A → List A
unfolding insert_by
sort_by le [] = []
sort_by le (x ∷ xs) = insert_by le x (sort_by le xs)

-- The three parts of the header, each the last one that is there.
abbrev Parts : Type 0
Parts = Option Text × Option Text × Option Text

abbrev or_else : {A : Type 0} → Option A → Option A → Option A
or_else none b = b
or_else (some a) b = some a

take_part : Text → Parts → Parts
take_part part (credential, signed, signature) = elim (strip_prefix (str "Credential=") part) [
  | some v ↦ (some v, signed, signature)
  | none ↦ elim (strip_prefix (str "SignedHeaders=") part) [
    | some v ↦ (credential, some v, signature)
    | none ↦ (credential, signed, or_else (strip_prefix (str "Signature=") part) signature)
  ]
]

unfoldable pub take_parts : List Text → Parts → Parts
unfolding take_part
take_parts [] acc = acc
take_parts (part ∷ parts) acc = take_parts parts (take_part (trim part) acc)

-- `splitn(5, '/')` with all five parts there: the first three.
abbrev on_split : {A : Type 0} → Text → (Text → Text → Option A) → Option A
on_split s f = elim (split_once b'/' s) [ none ↦ none | some (first, rest) ↦ f first rest ]

unfoldable pub credential_parts : Text → Option (Text × Text × Text)
credential_parts credential = on_split credential (λ access_key rest. on_split rest (λ date rest'.
    on_split rest'
      (λ region rest''. on_split rest'' (λ service last. some (access_key, date, region)))))

module _ (h : Hashes) where
  abbrev of_parts : Parts → Option ParsedAuth
  of_parts (some credential, some signed, some signature) = elim (credential_parts credential) [
    | none ↦ none
    | some (access_key, date, region) ↦ some (record {
      access_key = access_key;
      date = date;
      region = region;
      signed_headers = sort_by text_leb (map h.to_lowercase (split b';' signed));
      signature = signature;
    })
  ]
  of_parts _ = none

  unfoldable pub parse_authorization : Text → Option ParsedAuth
  parse_authorization header = elim (strip_prefix (str "AWS4-HMAC-SHA256 ") header) [
    | none ↦ none
    | some rest ↦ of_parts (take_parts (split b',' rest) (none, none, none))
  ]
