-- ===== src/S3/Auth/Verify.antt =====
-- `verify_sigv4` of local-storage/src/s3/auth.rs, and what an accepted request has.
use rust_local_storage_cdn.Prelude.{
  ℕ, ◌-◌, ◌/◌, ◌≤◌, Text, Bytes, str, text_eq, Bool, true, false, not, Option, none, some, ◌++◌,
  ltb, leb, if◌then◌else◌, ok, err, and_then, ok_or, starts_with, ◌≡◌,
}
use rust_local_storage_cdn.Config.{S3Config}
use rust_local_storage_cdn.S3.Errors.{
  S3Error, S3Result, access_denied, invalid_request, signature_does_not_match,
}
use rust_local_storage_cdn.S3.Auth.{Hashes, Request, ParsedAuth, parse_authorization}
use rust_local_storage_cdn.S3.Auth.Compare.{constant_time_eq}
use rust_local_storage_cdn.S3.Auth.Canonical.{canonical_request}

-- Whole seconds between two times in microseconds.
abbrev pub skew_seconds : ℕ → ℕ → ℕ
skew_seconds now t = (if leb t now then now - t else t - now) / 1000000

abbrev pub skewed : Request → S3Error
skewed r = record {
  status = 403;
  code = str "RequestTimeTooSkewed";
  message = str "The difference between the request time and the current time is too large";
  resource = r.path;
}

abbrev pub streaming : Request → S3Error
streaming r = record {
  status = 501;
  code = str "NotImplemented";
  message =
      str
        "Chunked/streaming signed payloads (STREAMING-AWS4-HMAC-SHA256-PAYLOAD) are not supported yet";
  resource = r.path;
}

-- A check that stops the verification with an error.
abbrev pub guard : Bool → S3Error → S3Result (Unit {0})
guard true e = ok tt
guard false e = err e

module _ (h : Hashes) where
  abbrev sha256_hex : Bytes → Text
  sha256_hex content = h.hex_encode (h.sha256 content)

  unfoldable pub signing_key : (secret_key date region : Text) → Bytes
  signing_key secret date region =
      h.hmac_sha256
        (h.hmac_sha256 (h.hmac_sha256 (h.hmac_sha256 (str "AWS4" ++ secret) date) region)
          (str "s3"))
        (str "aws4_request")

  -- The hash of the body that is signed; a declared one has to be the body's.
  unfoldable pub hashed_payload : Request → Option Text → S3Result Text
  hashed_payload r none = ok (sha256_hex r.body)
  hashed_payload r (some v) =
      if text_eq v (str "UNSIGNED-PAYLOAD")
      then ok (str "UNSIGNED-PAYLOAD")
      else if starts_with (str "STREAMING-") v
      then err (streaming r)
      else if not (text_eq v (sha256_hex r.body))
      then err signature_does_not_match
      else ok (sha256_hex r.body)

  unfoldable pub string_to_sign : Request → ParsedAuth → (amz_date payload : Text) → Text
  string_to_sign r parsed amz_date payload =
      str "AWS4-HMAC-SHA256\n"
      ++ (amz_date
          ++ (str "\n"
              ++ (parsed.date
                  ++ (str "/"
                      ++ (parsed.region
                          ++ (str "/s3/aws4_request"
                              ++ (str "\n"
                                  ++ sha256_hex
                                      (canonical_request h r parsed.signed_headers payload))))))))

  unfoldable pub computed_signature :
      S3Config → Request → ParsedAuth → (amz_date payload : Text) → Text
  computed_signature cfg r parsed amz_date payload = h.hex_encode (
      h.hmac_sha256 (signing_key cfg.secret_key parsed.date parsed.region)
        (string_to_sign r parsed amz_date payload))

  unfoldable pub verify_sigv4 : (now : ℕ) → Request → S3Config → S3Result (Unit {0})
  verify_sigv4 now r cfg =
      and_then
        (ok_or (r.headers (str "authorization"))
          (access_denied (str "Missing Authorization header")))
        (λ header.
          and_then
            (ok_or (parse_authorization h header)
              (invalid_request (str "Malformed Authorization header")))
            (λ parsed.
              and_then (guard (text_eq parsed.access_key cfg.access_key) signature_does_not_match)
                (λ _.
                  and_then
                    (ok_or (r.headers (str "x-amz-date"))
                      (invalid_request (str "Missing x-amz-date header")))
                    (λ amz_date.
                      and_then
                        (ok_or (h.parse_date amz_date) (invalid_request (str "Invalid x-amz-date")))
                        (λ time.
                          and_then (guard (not (ltb 900 (skew_seconds now time))) (skewed r)) (λ _.
                            and_then (hashed_payload r (r.headers (str "x-amz-content-sha256")))
                              (λ payload.
                                guard
                                  (constant_time_eq
                                    (computed_signature cfg r parsed amz_date payload)
                                    parsed.signature)
                                  signature_does_not_match)))))))

  -- What an accepted request has: a signature made with the secret key over the request as it is, at a
  -- time at most 900 seconds from now.
  abbrev pub IsSigned : ℕ → Request → S3Config → Type 0
  IsSigned now r cfg =
      (header : Text) × (parsed : ParsedAuth) × (amz_date : Text) × (time : ℕ) × (payload : Text)
      × (r.headers (str "authorization") ≡ some header)
      × (parse_authorization h header ≡ some parsed)
      × (parsed.access_key ≡ cfg.access_key)
      × (r.headers (str "x-amz-date") ≡ some amz_date)
      × (h.parse_date amz_date ≡ some time)
      × (skew_seconds now time ≤ 900)
      × (hashed_payload r (r.headers (str "x-amz-content-sha256")) ≡ ok payload)
      × (constant_time_eq (computed_signature cfg r parsed amz_date payload) parsed.signature
          ≡ true)
