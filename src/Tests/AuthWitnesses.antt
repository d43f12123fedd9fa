-- ===== src/Tests/AuthWitnesses.antt =====
-- The theorems about signatures and cache keys at concrete inputs.
use rust_local_storage_cdn.Prelude.{
  Text, str, text_eq, true, false, Option, none, some, [], ◌∷◌, contains, if◌then◌else◌, ok, ◌≡◌,
  ◌↔◌, refl, arith, Bytes, strip_prefix, split, split_once, trim,
}
use rust_local_storage_cdn.Config.{S3Config}
use rust_local_storage_cdn.Cache.Laws.{content_key-injective}
use rust_local_storage_cdn.S3.Auth.{
  Hashes, Request, parse_authorization, take_parts, credential_parts,
}
use rust_local_storage_cdn.S3.Auth.Compare.{
  constant_time_eq, constant_time_eq_iff, or_bits, xor_bits,
}
use rust_local_storage_cdn.S3.Auth.Verify.{verify_sigv4, hashed_payload, computed_signature}

abbrev pub hashes : Hashes
hashes = record {
  hmac_sha256 = λ key content. str "k";
  sha256 = λ content. str "h";
  hex_encode = λ content. content;
  url_decode = λ s. some s;
  to_lowercase = λ s. s;
  parse_date = λ s. some 5000000;
}

abbrev pub headers : Text → Option Text
headers name =
    if text_eq name (str "authorization")
    then some
        (str "AWS4-HMAC-SHA256 Credential=A/d/r/s3/aws4_request, SignedHeaders=host, Signature=k")
    else if text_eq name (str "x-amz-date")
    then some (str "19700101T000005Z")
    else none

abbrev pub request : Request
request = record {
  method = str "GET";
  path = str "/v2/b/k";
  query = some (str "list-type=2");
  headers = headers;
  body = [];
}

abbrev pub credentials : S3Config
credentials = record { access_key = str "A"; secret_key = str "S"; region = str "r" }

accepts : verify_sigv4 hashes 0 request credentials ≡ ok tt
unfolding verify_sigv4 text_eq parse_authorization strip_prefix take_parts split trim
    credential_parts split_once hashed_payload constant_time_eq computed_signature or_bits xor_bits
accepts = refl

abbrev left : Bytes
left = 1 ∷ 2 ∷ []

abbrev other : Bytes
other = 1 ∷ 3 ∷ []

constant_time_eq_iff_example : (constant_time_eq left other ≡ true) ↔ (left ≡ other)
constant_time_eq_iff_example =
    constant_time_eq_iff left other (omega arith, (omega arith, tt))
      (omega arith, (omega arith, tt))

colon_free : contains b':' (str "b") ≡ false
unfolding contains
colon_free = refl

content_key-injective_example : (str "b" ≡ str "b") × (str "k" ≡ str "k")
content_key-injective_example =
    content_key-injective (str "b") (str "k") (str "b") (str "k") colon_free colon_free refl
