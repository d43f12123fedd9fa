-- ===== src/S3/Auth/Laws.antt =====
-- Which requests `verify_sigv4` of local-storage/src/s3/auth.rs accepts.
use rust_local_storage_cdn.Prelude.{
  ℕ, ◌≤◌, str, text_eq, text_eq_iff, Bool, true, false, not, Option, none, some, ltb, ok,
  and_then-eq-ok, ok_or, ◌≡◌, ◌↔◌, refl, arith,
}
use rust_local_storage_cdn.Config.{S3Config}
use rust_local_storage_cdn.S3.Errors.{S3Error}
use rust_local_storage_cdn.S3.Auth.{Hashes, Request, parse_authorization}
use rust_local_storage_cdn.S3.Auth.Verify.{
  guard, skew_seconds, hashed_payload, verify_sigv4, IsSigned,
}

guard-true : (b : Bool) (e : S3Error) (u : Unit {0}) → guard b e ≡ ok u → b ≡ true
guard-true true e u h = refl
guard-true false e u h = cc

present : {A : Type 0} (o : Option A) (e : S3Error) (a : A) → ok_or o e ≡ ok a → o ≡ some a
present none e a h = cc
present (some b) e a h = cc

in_time : (n : ℕ) → not (ltb 900 n) ≡ true → n ≤ 900
in_time n h = ground arith

in_time_back : (n : ℕ) → n ≤ 900 → ltb 900 n ≡ false
in_time_back n h = ground arith

module _ (h : Hashes) (now : ℕ) (r : Request) (cfg : S3Config) where
  signed : verify_sigv4 h now r cfg ≡ ok tt → IsSigned h now r cfg
  unfolding verify_sigv4
  signed e =
      let (header, e1, f1) = and_then-eq-ok (ok_or (r.headers (str "authorization")) _) _ e in
      let (parsed, e2, f2) = and_then-eq-ok (ok_or (parse_authorization h header) _) _ f1 in
      let (u, e3, f3) = and_then-eq-ok (guard (text_eq parsed.access_key cfg.access_key) _) _ f2 in
      let (amz_date, e4, f4) = and_then-eq-ok (ok_or (r.headers (str "x-amz-date")) _) _ f3 in
      let (time, e5, f5) = and_then-eq-ok (ok_or (h.parse_date amz_date) _) _ f4 in
      let (v, e6, f6) = and_then-eq-ok (guard (not (ltb 900 (skew_seconds now time))) _) _ f5 in
      let (payload, e7, f7) = and_then-eq-ok (hashed_payload h r _) _ f6 in
      (
        header,
        parsed,
        amz_date,
        time,
        payload,
        present _ _ _ e1,
        present _ _ _ e2,
        (text_eq_iff parsed.access_key cfg.access_key).0 (guard-true _ _ _ e3),
        present _ _ _ e4,
        present _ _ _ e5,
        in_time _ (guard-true _ _ _ e6),
        e7,
        guard-true _ _ _ f7,
      )

  accepted : IsSigned h now r cfg → verify_sigv4 h now r cfg ≡ ok tt
  unfolding verify_sigv4
  accepted (header, parsed, amz_date, time, payload, e1, e2, e3, e4, e5, e6, e7, e8) = rw (
    e1,
    e2,
    (text_eq_iff parsed.access_key cfg.access_key).1 e3,
    e4,
    e5,
    in_time_back (skew_seconds now time) e6,
    e7,
    e8,
  )

  pub verify_sigv4_iff : (verify_sigv4 h now r cfg ≡ ok tt) ↔ IsSigned h now r cfg
  verify_sigv4_iff = (signed, accepted)
