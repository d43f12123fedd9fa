-- ===== src/World.antt =====
-- What the storage layer acts on: the database tables, the files on disk, the cache, the clock and
-- the random draws; and the environment: the crates that the source calls, and which outside calls
-- fail.
pub mod Actions
use rust_local_storage_cdn.Prelude.{
  ℕ, Text, Bytes, Bool, Option, List, Result, ok, none, length, ◌≡◌,
}
use rust_local_storage_cdn.Models.{StoredFile, EncryptionKey}
use rust_local_storage_cdn.Codec.{Codec, IsCodec}
use rust_local_storage_cdn.Crypto.{Aead, IsAead}

pub record BucketRow : Type 0 where
  pub name : Text
  pub created_at : ℕ
  pub is_active : Bool

pub record World : Type 0 where
  -- the tables
  pub files : List StoredFile
  pub buckets : List BucketRow
  pub keys : List EncryptionKey
  -- the regular files on disk, and the cache backend's entries
  pub disk : Text → Option Bytes
  pub cache : Text → Option Bytes
  -- the clock in microseconds, and how many random values have been drawn
  pub now : ℕ
  pub drawn : ℕ

-- The outside calls, by call site; each can fail.
pub data Effect : Type 0 where
  -- statements sent to the database
  select_bucket insert_bucket delete_bucket_row select_bucket_files : Text → Effect
  select_file insert_file delete_file_row : (bucket key : Text) → Effect
  select_by_hash count_references delete_bucket_files : Text → Effect
  update_access_row update_cache_row : ℕ → Effect
  select_expired select_files select_keys select_buckets select_popular select_cache_config
        reset_cache_rows ping_database :
      Effect
  begin_transaction commit_transaction : Effect
  select_key insert_key update_key : Text → Effect
  -- the file system
  create_dir write_temp rename_temp read_file remove_file remove_dir : Text → Effect
  -- the cache backend
  cache_get cache_set cache_del : Text → Effect
  cache_ping cache_connect cache_clear : Effect

-- What a failed call says; `code` is the SQLSTATE of a database error.
pub record Fault : Type 0 where
  pub message : Text
  pub code : Option Text
  pub is_missing_file : Bool

pub record Env : Type 0 where
  pub fails : Effect → Option Fault
  pub codec : Codec
  pub aead : Aead
  pub blake3 : Bytes → Text
  pub md5 : Bytes → Text
  -- serde_json on rows
  pub to_vec : StoredFile → Result Text Bytes
  pub from_slice : Bytes → Result Text StoredFile
  -- the n-th draw of a Uuid, a nonce, a key and a letter or digit
  pub uuid : ℕ → ℕ
  pub nonce : ℕ → Bytes
  pub random_key : ℕ → Bytes
  pub alphanumeric : ℕ → ℕ
  -- PostgreSQL's LIKE
  pub like : (pattern text : Text) → Bool
  -- the file that a path names, whatever the spelling of the path: what `realpath` would give
  pub canonical : (path : Text) → Text

-- No outside call fails.
abbrev pub IsCalm : Env → Type 0
IsCalm env = (e : Effect) → env.fails e ≡ none

-- What the crates promise: each decoder undoes its encoder, and a nonce has 12 bytes.
pub record IsSound (env : Env) : Type 0 where
  pub codec_law : IsCodec env.codec
  pub aead_law : IsAead env.aead
  pub nonce_law : (n : ℕ) → length (env.nonce n) ≡ 12
  pub json_law :
      (file : StoredFile)
      → (bytes : Bytes) × (env.to_vec file ≡ ok bytes) × (env.from_slice bytes ≡ ok file)
