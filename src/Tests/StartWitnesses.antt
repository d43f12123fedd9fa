-- ===== src/Tests/StartWitnesses.antt =====
-- The theorems about a started server at a concrete environment.
use rust_local_storage_cdn.Prelude.{
  inl, ℕ, str, text_eq, true, none, some, [], ◌∷◌, ok, ◌≡◌, ◌⊎◌, refl, if◌then◌else◌, split, trim,
  decimal, parse_u64, parse_i64,
}
use rust_local_storage_cdn.Config.{S3Config, cache_backend, protection_token, protected_buckets}
use rust_local_storage_cdn.Config.Load.{
  Vars, load, load_server, new_database, load_redis, load_cache, load_storage, load_crypto,
  load_compression, load_s3, parse_bool,
}
use rust_local_storage_cdn.Crypto.{new_crypto}
use rust_local_storage_cdn.Handlers.Download.{AppState, token_required}
use rust_local_storage_cdn.S3.Errors.{S3Error}
use rust_local_storage_cdn.S3.Auth.Verify.{IsSigned}
use rust_local_storage_cdn.S3.Router
use rust_local_storage_cdn.App.{Call, Reply, serve}
use rust_local_storage_cdn.Startup.Serving.{Host, main, new_state, new_manager, new_cache}
use rust_local_storage_cdn.Handlers.Download.Laws.{IsCovered}
use rust_local_storage_cdn.Startup.Serving.Laws.{serve-token_required, serve-unsigned}
use rust_local_storage_cdn.Tests.Samples.{env, shared_world}
use rust_local_storage_cdn.Tests.ManageWitnesses.{loaded}
use rust_local_storage_cdn.Tests.S3Witnesses.{unsigned}
use rust_local_storage_cdn.Tests.AppWitnesses.{crates}

abbrev vars : Vars
vars name =
    if text_eq name (str "S3_ACCESS_KEY")
    then some (str "A")
    else if text_eq name (str "S3_SECRET_KEY")
    then some (str "S")
    else if text_eq name (str "WRITE_PROTECTION_TOKEN")
    then some (str "t")
    else if text_eq name (str "PROTECTED_READ_BUCKETS")
    then some (str "b, c")
    else none

abbrev host : Host
host = record {
  vars = vars;
  is_database_url = λ s. true;
  is_redis_url = λ s. true;
  hex_decode = λ s. ok s;
  random_key = [];
  is_free = λ port. true;
}

abbrev state : AppState
state = record {
  storage = record {
    config = record loaded {
      download_protection_token = some (str "t");
      protected_read_buckets = some (str "b" ∷ str "c" ∷ []);
    };
    crypto = record { config = loaded.crypto; aes_key = none; chacha_key = none };
  };
  s3_config = loaded.s3;
  download_protection_token = some (str "t");
  protected_read_buckets = some (str "b" ∷ str "c" ∷ []);
}

starts : (main env host shared_world).0 ≡ ok state
unfolding main load load_server parse_u64 text_eq new_database load_redis load_cache load_storage
    parse_bool load_crypto load_compression parse_i64 decimal cache_backend load_s3 protection_token
    protected_buckets new_state new_manager new_cache new_crypto trim split
starts = refl

protects : IsCovered (protected_buckets (host.vars (str "PROTECTED_READ_BUCKETS"))) (some (str "b"))
unfolding protected_buckets text_eq trim split
protects = inl refl

sets_token : host.vars (str "WRITE_PROTECTION_TOKEN") ≡ some (str "t")
unfolding text_eq
sets_token = refl

abbrev fetching : Call
fetching = Call.fetch (str "b") (str "a") none none

serve-token_required_example :
    serve crates state true fetching shared_world ≡ (Reply.error token_required, shared_world)
serve-token_required_example =
    serve-token_required env host shared_world state (str "t") crates true fetching (some (str "b"))
      none shared_world starts sets_token (λ e. cc) refl protects (λ e. cc)

abbrev dropping : Router.Call
dropping = Router.Call.drop_key (str "b") (str "a")

has_no_header : (now : ℕ) (k : S3Config) → ¬ IsSigned crates.hashes now unsigned k
has_no_header now k (header, parts, date, time, payload, e1, e2, e3, e4, e5, e6, e7, e8) = cc

serve-unsigned_example :
    (serve crates state true (Call.s3 unsigned dropping) shared_world
      ≡ (Reply.status 404, shared_world))
    ⊎ ((e : S3Error) × (serve crates state true (Call.s3 unsigned dropping) shared_world
          ≡ (Reply.s3_error e, shared_world)))
serve-unsigned_example =
    serve-unsigned env host shared_world state crates true unsigned dropping shared_world starts
      (λ k access key. has_no_header shared_world.now k)
