-- ===== src/S3/Auth/Canonical.antt =====
-- The canonical request of local-storage/src/s3/auth.rs: `uri_encode`, `canonical_uri`,
-- `canonical_query_string`, `canonical_headers` and `canonical_request`.
use rust_local_storage_cdn.Prelude.{
  ℕ, ◌+◌, ◌-◌, ◌/◌, ◌%◌, Text, str, text_eq, Bool, false, not, ◌&&◌, ◌||◌, Option, none, some, List,
  [], ◌∷◌, ◌++◌, map, filter, ltb, leb, ◌==◌, if◌then◌else◌, split, split_once, join, trim,
  is_space, unwrap_or,
}
use rust_local_storage_cdn.S3.Auth.{Hashes, Request, sort_by, pair_leb}

abbrev pub is_unreserved : ℕ → Bool
is_unreserved c =
    (leb b'0' c && leb c b'9')
    || (leb b'A' c && leb c b'Z')
    || (leb b'a' c && leb c b'z')
    || (c == b'-')
    || (c == b'_')
    || (c == b'.')
    || (c == b'~')

-- One digit of `{:02X}`.
abbrev hex_digit : ℕ → ℕ
hex_digit n = if ltb n 10 then n + b'0' else n - 10 + b'A'

abbrev pub encode_byte : Bool → ℕ → Text
encode_byte preserve_slash c =
    if is_unreserved c || (preserve_slash && (c == b'/'))
    then c ∷ []
    else b'%' ∷ hex_digit (c / 16) ∷ hex_digit (c % 16) ∷ []

unfoldable pub uri_encode : Text → (preserve_slash : Bool) → Text
uri_encode [] preserve_slash = []
uri_encode (c ∷ s) preserve_slash = encode_byte preserve_slash c ++ uri_encode s preserve_slash

-- `split_whitespace().join(" ")`
abbrev collapse : Text → Text
collapse s = join (str " ") (
    filter (λ (w : Text). not (text_eq w []))
      (split b' ' (map (λ c. if is_space c then b' ' else c) s)))

module _ (h : Hashes) where
  abbrev decode_or_original : Text → Text
  decode_or_original s = unwrap_or (h.url_decode s) s

  unfoldable pub canonical_uri : Text → Text
  canonical_uri path =
      if text_eq path []
      then str "/"
      else join (str "/")
          (map (λ segment. uri_encode (decode_or_original segment) false) (split b'/' path))

  abbrev key_value : Option (Text × Text) → Text → Text × Text
  key_value none pair = (decode_or_original pair, decode_or_original [])
  key_value (some (k, v)) pair = (decode_or_original k, decode_or_original v)

  abbrev encode_pair : Text × Text → Text
  encode_pair (k, v) = uri_encode k false ++ (str "=" ++ uri_encode v false)

  unfoldable pub canonical_query_string : Text → Text
  canonical_query_string query =
      if text_eq query []
      then []
      else join (str "&") (
          map encode_pair (
            sort_by pair_leb (
              map (λ pair. key_value (split_once b'=' pair) pair)
                (filter (λ (s : Text). not (text_eq s [])) (split b'&' query)))))

  unfoldable pub canonical_headers : (Text → Option Text) → List Text → Text
  canonical_headers headers names =
      join (str "\n")
        (map (λ name. name ++ (str ":" ++ collapse (trim (unwrap_or (headers name) [])))) names)
      ++ str "\n"

  unfoldable pub canonical_request :
      Request → (signed_headers : List Text) → (hashed_payload : Text) → Text
  canonical_request r signed hashed = join (str "\n") (
      r.method
      ∷ canonical_uri r.path
      ∷ canonical_query_string (unwrap_or r.query [])
      ∷ canonical_headers r.headers signed
      ∷ join (str ";") signed
      ∷ hashed
      ∷ [])
