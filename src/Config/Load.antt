-- ===== src/Config/Load.antt =====
-- `Config::load`, `DatabaseConfig::new` and the two URLs of local-storage/src/config.rs. A variable of
-- the environment is its text, if it is set; where a value does not parse, loading ends with an error,
-- here without a settings record.
pub mod Laws
use rust_local_storage_cdn.Prelude.{
  ℕ, Text, str, text_eq, Bool, true, false, ◌&&◌, Option, none, some, ◌++◌, leb, if◌then◌else◌, ℤ,
  pos, negsuc, unwrap_or, parse_u64, parse_i64, decimal,
}
use rust_local_storage_cdn.Config.{
  Config, ServerConfig, DatabaseConfig, RedisConfig, CacheSettings, StorageConfig, CryptoConfig,
  CompressionConfig, S3Config, cache_backend, protection_token, protected_buckets, non_empty,
}

infixl 10 ◌>>=◌
abbrev pub ◌>>=◌ : {A B : Type 0} → Option A → (A → Option B) → Option B
none >>= f = none
some a >>= f = f a

abbrev pub pure : {A : Type 0} → A → Option A
pure a = some a

abbrev pub Vars : Type 0
Vars = Text → Option Text

abbrev up_to : ℕ → Option ℕ → Option ℕ
up_to bound none = none
up_to bound (some n) = if leb n bound then some n else none

-- `str::parse` to u8, u16 and u32; what does not fit is an error.
abbrev parse_u8 : Text → Option ℕ
parse_u8 s = up_to 255 (parse_u64 s)

abbrev parse_u16 : Text → Option ℕ
parse_u16 s = up_to 65535 (parse_u64 s)

abbrev parse_u32 : Text → Option ℕ
parse_u32 s = up_to 4294967295 (parse_u64 s)

abbrev within_i32 : Option ℤ → Option ℤ
within_i32 none = none
within_i32 (some (pos n)) = if leb n 2147483647 then some (pos n) else none
within_i32 (some (negsuc n)) = if leb n 2147483647 then some (negsuc n) else none

abbrev parse_i32 : Text → Option ℤ
parse_i32 s = within_i32 (parse_i64 s)

unfoldable pub parse_bool : Text → Option Bool
parse_bool s =
    if text_eq s (str "true")
    then some true
    else if text_eq s (str "false")
    then some false
    else none

-- Both keys, and neither of them empty.
abbrev pub credentials : (region : Text) → Option Text → Option Text → Option S3Config
credentials region (some access_key) (some secret_key) =
    if non_empty access_key && non_empty secret_key
    then some (record { access_key = access_key; secret_key = secret_key; region = region })
    else none
credentials region _ _ = none

module _ (vars : Vars) where
  -- `env::var(..).unwrap_or_else(..)`
  abbrev pub var_or : Text → Text → Text
  var_or name value = unwrap_or (vars name) value

  unfoldable pub new_database : Option DatabaseConfig
  new_database = do
    port ← parse_u16 (var_or (str "POSTGRES_PORT") (str "5432"))
    max_connections ← parse_u32 (var_or (str "DB_MAX_CONNECTIONS") (str "10"))
    let host = var_or (str "POSTGRES_HOST") (str "localhost")
    let database = var_or (str "POSTGRES_DB") (str "local_storage")
    let username = var_or (str "POSTGRES_USER") (str "postgres")
    let password = var_or (str "POSTGRES_PASSWORD") (str "postgres123")
    pure (record {
      host = host;
      port = port;
      database = database;
      username = username;
      password = password;
      max_connections = max_connections;
      url =
          str "postgres://"
          ++ (username
              ++ (str ":"
                  ++ (password
                      ++ (str "@"
                          ++ (host ++ (str ":" ++ (decimal port ++ (str "/" ++ database))))))));
    })

  unfoldable pub load_server : Option ServerConfig
  load_server = do
    port ← parse_u16 (var_or (str "PORT") (str "8080"))
    pure (record { port = port; log_level = var_or (str "LOG_LEVEL") (str "INFO") })

  unfoldable pub load_redis : Option RedisConfig
  load_redis = do
    port ← parse_u16 (var_or (str "REDIS_PORT") (str "6379"))
    database ← parse_u8 (var_or (str "REDIS_DB") (str "0"))
    max_connections ← parse_u32 (var_or (str "REDIS_MAX_CONNECTIONS") (str "10"))
    pure (record {
      host = var_or (str "REDIS_HOST") (str "redis");
      port = port;
      password = vars (str "REDIS_PASSWORD");
      database = database;
      max_connections = max_connections;
    })

  -- CACHE_TTL_SECONDS, with the older REDIS_TTL_SECONDS behind it
  unfoldable pub load_cache : Option CacheSettings
  load_cache = do
    max_size_mb ← parse_u64 (var_or (str "CACHE_MAX_SIZE_MB") (str "256"))
    ttl_seconds ←
        parse_u64 (
          unwrap_or (vars (str "CACHE_TTL_SECONDS"))
            (var_or (str "REDIS_TTL_SECONDS") (str "3600")))
    pure (record {
      backend = cache_backend (vars (str "CACHE_BACKEND")) (vars (str "ENABLE_REDIS"));
      max_size_mb = max_size_mb;
      ttl_seconds = ttl_seconds;
    })

  unfoldable pub load_storage : Option StorageConfig
  load_storage = do
    max_file_size ← parse_u64 (var_or (str "MAX_FILE_SIZE") (str "1073741824"))
    enable_deduplication ← parse_bool (var_or (str "ENABLE_DEDUPLICATION") (str "true"))
    pure (record {
      path = var_or (str "STORAGE_PATH") (str "/storage");
      max_file_size = max_file_size;
      default_bucket = var_or (str "DEFAULT_BUCKET") (str "default");
      enable_deduplication = enable_deduplication;
    })

  unfoldable pub load_crypto : Option CryptoConfig
  load_crypto = do
    enabled ← parse_bool (var_or (str "ENABLE_ENCRYPTION") (str "false"))
    pure (record {
      enabled = enabled;
      algorithm = var_or (str "CRYPTO_ALGORITHM") (str "aes-gcm");
      key = vars (str "CRYPTO_KEY");
    })

  unfoldable pub load_compression : Option CompressionConfig
  load_compression = do
    enabled ← parse_bool (var_or (str "ENABLE_COMPRESSION") (str "false"))
    level ← parse_i32 (var_or (str "COMPRESSION_LEVEL") (str "3"))
    min_size ← parse_u64 (var_or (str "COMPRESSION_MIN_SIZE") (str "1024"))
    pure (record {
      enabled = enabled;
      algorithm = var_or (str "COMPRESSION_ALGORITHM") (str "zstd");
      level = level;
      min_size = min_size;
    })

  unfoldable pub load_s3 : Option S3Config
  load_s3 =
      credentials (var_or (str "S3_REGION") (str "us-east-1")) (vars (str "S3_ACCESS_KEY"))
        (vars (str "S3_SECRET_KEY"))

  unfoldable pub load : Option Config
  load = do
    server ← load_server
    database ← new_database
    redis ← load_redis
    cache ← load_cache
    storage ← load_storage
    crypto ← load_crypto
    compression ← load_compression
    pure (record {
      server = server;
      database = database;
      redis = redis;
      cache = cache;
      storage = storage;
      crypto = crypto;
      compression = compression;
      s3 = load_s3;
      download_protection_token = protection_token (vars (str "WRITE_PROTECTION_TOKEN"));
      protected_read_buckets = protected_buckets (vars (str "PROTECTED_READ_BUCKETS"));
    })

unfoldable pub database_url : Config → Text
database_url config = config.database.url

abbrev with_password : Option Text → Text → Text
with_password (some password) rest = str "redis://:" ++ (password ++ (str "@" ++ rest))
with_password none rest = str "redis://" ++ rest

unfoldable pub redis_url : Config → Text
redis_url config = with_password config.redis.password (
    config.redis.host
    ++ (str ":" ++ (decimal config.redis.port ++ (str "/" ++ decimal config.redis.database))))
