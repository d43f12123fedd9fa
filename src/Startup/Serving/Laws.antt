-- ===== src/Startup/Serving/Laws.antt =====
-- What a server that was started from given environment variables refuses.
use rust_local_storage_cdn.Prelude.{
  is_some, [], Text, Bool, true, false, Option, none, some, Option-cases, ok, err, ◌≡◌, ◌≢◌, ◌⊎◌,
  inl, inr, refl, arith, ap, ◌∙◌, str, if◌then◌else◌,
}
use rust_local_storage_cdn.Config.{Config, S3Config, protected_buckets}
use rust_local_storage_cdn.Config.Load.{load}
use rust_local_storage_cdn.Config.Load.Laws.{last_steps, protection_token_iff, load_iff}
use rust_local_storage_cdn.World.{World, Env}
use rust_local_storage_cdn.Handlers.Download.Laws.{
  IsCovered, IsCovered-in_scope, require_download_token-refused, handle_file_request-forbidden,
}
use rust_local_storage_cdn.Handlers.Manage
use rust_local_storage_cdn.App.{is_limited, is_mounted, dispatch, concurrency_limiter}
use rust_local_storage_cdn.S3.Auth.{Request}
use rust_local_storage_cdn.S3.Auth.Verify.{IsSigned}
use rust_local_storage_cdn.S3.Router
use rust_local_storage_cdn.S3.Router.Laws.{handle-unsigned}
use rust_local_storage_cdn.S3.Errors.{S3Error}
use rust_local_storage_cdn.Handlers.Download.{AppState, in_scope, token_required}
use rust_local_storage_cdn.App.{Call, Crates, Reply, serve}
use rust_local_storage_cdn.Startup.Serving.{Host, main, start, new_state, new_manager}

module _ (env : Env) (host : Host) where
  start-ok :
      (loaded : Option Config) (w : World) (state : AppState)
      → (start env host loaded w).0 ≡ ok state
      → (config : Config) × (loaded ≡ some config)
        × (state.s3_config ≡ config.s3)
        × (state.download_protection_token ≡ config.download_protection_token)
        × (state.protected_read_buckets ≡ config.protected_read_buckets)
  unfolding new_state new_manager
  start-ok none w state h = ground arith
  start-ok (some config) w state h = (config, refl, ground arith, ground arith, ground arith)

  main-ok :
      (w : World) (state : AppState)
      → (main env host w).0 ≡ ok state
      → (config : Config) × (load host.vars ≡ some config)
        × (state.s3_config ≡ config.s3)
        × (state.download_protection_token ≡ config.download_protection_token)
        × (state.protected_read_buckets ≡ config.protected_read_buckets)
  unfolding main
  main-ok w state h = start-ok (load host.vars) w state h

-- The bucket and the token of a call that reads files of one bucket, or of any.
abbrev pub reading : Call → Option (Option Text × Option Text)
reading (Call.list bucket query token) = some (some bucket, token)
reading (Call.search query token) = some (query.bucket, token)
reading (Call.fetch bucket path token range) = some (some bucket, token)
reading call = none

module _ (c : Crates) (state : AppState) (bucket token : Option Text) (expected : Text)
    (w : World) where
  dispatch-refused :
      (call : Call)
      → state.download_protection_token ≡ some expected
      → reading call ≡ some (bucket, token)
      → in_scope state.protected_read_buckets bucket ≡ true
      → token ≢ some expected
      → dispatch c state call w ≡ (Reply.error token_required, w)
  unfolding dispatch Manage.list_files Manage.search_files
  dispatch-refused (Call.list b query t) set reads inside wrong =
      ground (arith, require_download_token-refused state (some b) t expected)
  dispatch-refused (Call.search query t) set reads inside wrong =
      ground (arith, require_download_token-refused state query.bucket t expected)
  dispatch-refused (Call.fetch b path t range) set reads inside wrong =
      ground
        (arith, handle_file_request-forbidden c.env c.header_value state b path t range w expected)
  dispatch-refused call set reads inside wrong = ground arith

reading-limited :
    (state : AppState) (call : Call) (asked : Option Text × Option Text)
    → reading call ≡ some asked
    → (is_limited call ≡ true) × (is_mounted state call ≡ true)
unfolding is_limited is_mounted
reading-limited state (Call.list bucket query token) asked h = (refl, refl)
reading-limited state (Call.search query token) asked h = (refl, refl)
reading-limited state (Call.fetch bucket path token range) asked h = (refl, refl)
reading-limited state call asked h = ground arith

limiter-refused :
    (c : Crates) (state : AppState) (permit : Bool) (call : Call) (w : World)
    → dispatch c state call w ≡ (Reply.error token_required, w)
    → concurrency_limiter c state permit (dispatch c state call) w
      ≡ (if permit then Reply.error token_required else Reply.status 429, w)
unfolding concurrency_limiter
limiter-refused c state true call w refusal = refusal
limiter-refused c state false call w refusal = refl

s3-refused :
    (c : Crates) (state : AppState) (permit : Bool) (r : Request) (call : Router.Call) (w : World)
    (e : S3Error)
    → is_some state.s3_config ≡ true
    → Router.handle c.env c.hashes c.web state r call w ≡ (err e, w)
    → serve c state permit (Call.s3 r call) w ≡ (Reply.s3_error e, w)
unfolding serve dispatch is_mounted is_limited
s3-refused c state permit r call w e mounted bad = rw (mounted, bad)

module _ (env : Env) (host : Host) (start_world : World) (state : AppState) where
  -- A server that was started with WRITE_PROTECTION_TOKEN set to a text that is not empty refuses, on
  -- the routes beside the S3-compatible API, every listing and every read of a file without that token
  -- for each bucket that PROTECTED_READ_BUCKETS names, or for every bucket where it names none, and
  -- every search that gives such a bucket or gives no bucket: it answers Forbidden, or Too Many Requests
  -- where there is no permit, and changes nothing.
  pub serve-token_required :
      (expected : Text) (c : Crates) (permit : Bool) (call : Call) (bucket token : Option Text)
      (w : World)
      → (main env host start_world).0 ≡ ok state
      → host.vars (str "WRITE_PROTECTION_TOKEN") ≡ some expected
      → expected ≢ []
      → reading call ≡ some (bucket, token)
      → IsCovered (protected_buckets (host.vars (str "PROTECTED_READ_BUCKETS"))) bucket
      → token ≢ some expected
      → serve c state permit call w
        ≡ (if permit then Reply.error token_required else Reply.status 429, w)
  unfolding serve
  serve-token_required expected c permit call bucket token w started set filled reads inside wrong =
      let (config, loads, s3, secret, guarded) = main-ok env host start_world state started in
      let (keys, protection, buckets) = last_steps host.vars config loads in
      let configured =
        secret
        ∙ protection
        ∙ (protection_token_iff (host.vars (str "WRITE_PROTECTION_TOKEN")) expected).1
            (set, filled) in
      let covered =
        ap (λ list. in_scope list bucket) (guarded ∙ buckets)
        ∙ IsCovered-in_scope (protected_buckets (host.vars (str "PROTECTED_READ_BUCKETS"))) bucket
            inside in
      let (limited, mounted) = reading-limited state call (bucket, token) reads in
      rw (mounted, limited)
        (limiter-refused c state permit call w
          (dispatch-refused c state bucket token expected w call configured reads covered wrong))

  -- Whatever the environment variables were, a call of the S3-compatible API that is not signed, for
  -- whatever region, with the two keys that they set changes nothing and ends with an error of the API,
  -- or is not found where the API is not mounted.
  pub serve-unsigned :
      (c : Crates) (permit : Bool) (r : Request) (call : Router.Call) (w : World)
      → (main env host start_world).0 ≡ ok state
      → ((k : S3Config)
          → host.vars (str "S3_ACCESS_KEY") ≡ some k.access_key
          → host.vars (str "S3_SECRET_KEY") ≡ some k.secret_key
          → ¬ IsSigned c.hashes w.now r k)
      → (serve c state permit (Call.s3 r call) w ≡ (Reply.status 404, w))
        ⊎ ((e : S3Error) × (serve c state permit (Call.s3 r call) w ≡ (Reply.s3_error e, w)))
  unfolding serve dispatch is_mounted is_limited
  serve-unsigned c permit r call w started unsigned =
      let (config, loads, s3, secret, guarded) = main-ok env host start_world state started in
      elim (Option-cases state.s3_config) [
        | inl off ↦ inl (rw off)
        | inr (k, on) ↦
            let same : config.s3 ≡ some k = cc in
            let (access, key, x, y, region) = (load_iff host.vars config k [] loads).0.0 same in
            let (e, bad) =
              handle-unsigned c.env c.hashes c.web state r call w k on (unsigned k access key) in
            inr (e, s3-refused c state permit r call w e (ap is_some on) bad)
      ]
