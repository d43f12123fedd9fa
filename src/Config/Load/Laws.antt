-- ===== src/Config/Load/Laws.antt =====
-- Which settings are loaded from an environment.
use rust_local_storage_cdn.Prelude.{
  Text, str, text_eq_iff, Option, none, some, [], ◌≡◌, ◌≢◌, ◌↔◌, arith, unwrap_or, ap, refl,
}
use rust_local_storage_cdn.Config.{Config, S3Config, protection_token, protected_buckets}
use rust_local_storage_cdn.Config.Load.{
  Vars, load, credentials, load_s3, new_database, load_server, load_redis, load_cache, load_storage,
  load_crypto, load_compression, ◌>>=◌,
}

chain :
    {A B : Type 0} (o : Option A) (f : A → Option B) (b : B)
    → (o >>= f) ≡ some b
    → (a : A) × (o ≡ some a) × (f a ≡ some b)
chain none f b h = cc
chain (some a) f b h = (a, refl, h)

pub credentials_iff :
    (region : Text) (access secret : Option Text) (c : S3Config)
    → (credentials region access secret ≡ some c) ↔ (
        (access ≡ some c.access_key)
        × (secret ≡ some c.secret_key)
        × (c.access_key ≢ [])
        × (c.secret_key ≢ [])
        × (c.region ≡ region))
credentials_iff region none secret c = ground arith
credentials_iff region (some a) none c = ground arith
credentials_iff region (some a) (some s) c = ground (arith, text_eq_iff a [], text_eq_iff s [])

pub protection_token_iff :
    (var : Option Text) (t : Text) → (protection_token var ≡ some t) ↔ ((var ≡ some t) × (t ≢ []))
unfolding protection_token
protection_token_iff none t = ground arith
protection_token_iff (some v) t = ground (arith, text_eq_iff v [])

same_config : (a b : Config) → some a ≡ some b → b ≡ a
same_config a b h = cc

pub last_steps :
    (vars : Vars) (config : Config)
    → load vars ≡ some config
    → (config.s3 ≡ load_s3 vars)
      × (config.download_protection_token ≡ protection_token (vars (str "WRITE_PROTECTION_TOKEN")))
      × (config.protected_read_buckets ≡ protected_buckets (vars (str "PROTECTED_READ_BUCKETS")))
unfolding load
last_steps vars config h =
    let (server, e1, h1) = chain (load_server vars) _ config h in
    let (database, e2, h2) = chain (new_database vars) _ config h1 in
    let (redis, e3, h3) = chain (load_redis vars) _ config h2 in
    let (cache, e4, h4) = chain (load_cache vars) _ config h3 in
    let (storage, e5, h5) = chain (load_storage vars) _ config h4 in
    let (crypto, e6, h6) = chain (load_crypto vars) _ config h5 in
    let (compression, e7, h7) = chain (load_compression vars) _ config h6 in
    let same = same_config _ config h7 in
    (
      ap (λ (c : Config). c.s3) same,
      ap (λ (c : Config). c.download_protection_token) same,
      ap (λ (c : Config). c.protected_read_buckets) same,
    )

-- When the settings load, the S3-compatible API has credentials exactly when both variables are set
-- and neither is empty, and then those with the region or its default; and reads are protected by a
-- token exactly when its variable is set and not empty.
pub load_iff :
    (vars : Vars) (config : Config) (c : S3Config) (t : Text)
    → load vars ≡ some config
    → ((config.s3 ≡ some c) ↔ (
        (vars (str "S3_ACCESS_KEY") ≡ some c.access_key)
        × (vars (str "S3_SECRET_KEY") ≡ some c.secret_key)
        × (c.access_key ≢ [])
        × (c.secret_key ≢ [])
        × (c.region ≡ unwrap_or (vars (str "S3_REGION")) (str "us-east-1"))))
      × ((config.download_protection_token ≡ some t)
          ↔ ((vars (str "WRITE_PROTECTION_TOKEN") ≡ some t) × (t ≢ [])))
unfolding load_s3
load_iff vars config c t h =
    let (s3, token, buckets) = last_steps vars config h in
    (
      rw s3 (
          credentials_iff (unwrap_or (vars (str "S3_REGION")) (str "us-east-1"))
            (vars (str "S3_ACCESS_KEY")) (vars (str "S3_SECRET_KEY")) c),
      rw token (protection_token_iff (vars (str "WRITE_PROTECTION_TOKEN")) t),
    )
