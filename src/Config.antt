-- ===== src/Config.antt =====
-- local-storage/src/config.rs: the settings, and how the environment selects the cache backend, the
-- S3 credentials and the read protection.
pub mod Load
use rust_local_storage_cdn.Prelude.{
  ℕ, Text, str, Bool, not, Option, none, some, List, [], map, filter, ℤ, text_eq, split, trim,
  if◌then◌else◌,
}

pub record CompressionConfig : Type 0 where
  pub enabled : Bool
  pub algorithm : Text
  pub level : ℤ
  pub min_size : ℕ

pub record CryptoConfig : Type 0 where
  pub enabled : Bool
  pub algorithm : Text
  pub key : Option Text

pub record StorageConfig : Type 0 where
  pub path : Text
  pub max_file_size : ℕ
  pub default_bucket : Text
  pub enable_deduplication : Bool

pub data CacheBackendKind : Type 0 where
  memory redis : CacheBackendKind

pub record CacheSettings : Type 0 where
  pub backend : CacheBackendKind
  pub max_size_mb : ℕ
  pub ttl_seconds : ℕ

pub record S3Config : Type 0 where
  pub access_key : Text
  pub secret_key : Text
  pub region : Text

pub record ServerConfig : Type 0 where
  pub port : ℕ
  pub log_level : Text

pub record DatabaseConfig : Type 0 where
  pub host : Text
  pub port : ℕ
  pub database : Text
  pub username : Text
  pub password : Text
  pub max_connections : ℕ
  pub url : Text

pub record RedisConfig : Type 0 where
  pub host : Text
  pub port : ℕ
  pub password : Option Text
  pub database : ℕ
  pub max_connections : ℕ

pub record Config : Type 0 where
  pub server : ServerConfig
  pub database : DatabaseConfig
  pub redis : RedisConfig
  pub cache : CacheSettings
  pub storage : StorageConfig
  pub crypto : CryptoConfig
  pub compression : CompressionConfig
  pub s3 : Option S3Config
  pub download_protection_token : Option Text
  pub protected_read_buckets : Option (List Text)

abbrev is_text : Option Text → Text → Bool
is_text none s = Bool.false
is_text (some t) s = text_eq t s

-- CACHE_BACKEND, with the legacy ENABLE_REDIS switch behind it.
unfoldable pub cache_backend : (cache_backend_var enable_redis_var : Option Text) → CacheBackendKind
cache_backend var legacy =
    if is_text var (str "redis")
    then redis
    else if is_text var (str "memory")
    then memory
    else if is_text legacy (str "true")
    then redis
    else memory

abbrev pub non_empty : Text → Bool
non_empty s = not (text_eq s [])

abbrev keep_text : Bool → Text → Option Text
keep_text b s = if b then some s else none

-- WRITE_PROTECTION_TOKEN: an empty value counts as unset.
unfoldable pub protection_token : Option Text → Option Text
protection_token none = none
protection_token (some v) = keep_text (non_empty v) v

abbrev unless_empty : List Text → Option (List Text)
unless_empty [] = none
unless_empty list = some list

-- PROTECTED_READ_BUCKETS: comma-separated names, trimmed, without the empty ones.
unfoldable pub protected_buckets : Option Text → Option (List Text)
protected_buckets none = none
protected_buckets (some raw) = unless_empty (filter non_empty (map trim (split b',' raw)))
