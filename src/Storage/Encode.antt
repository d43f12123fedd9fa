-- ===== src/Storage/Encode.antt =====
-- The stages of `store_file` of local-storage/src/storage.rs that turn content into what is stored,
-- and `decode_content`, which reverses them.
pub mod Laws
use rust_local_storage_cdn.Prelude.{
  ℕ, Text, Bytes, Bool, true, false, ◌&&◌, Option, none, some, length, ltb, leb, if◌then◌else◌, ℤ,
  ok, err, unwrap_or,
}
use rust_local_storage_cdn.Errors.{StorageResult}
use rust_local_storage_cdn.Config.{Config, CompressionConfig}
use rust_local_storage_cdn.Models.{StoredFile, EncryptionKey}
use rust_local_storage_cdn.Compression.{compress, decompress}
use rust_local_storage_cdn.Crypto.{
  EncryptionAlgorithm, CryptoManager, from_str, aes_name, encrypt, decrypt, encrypt_with_key,
  decrypt_with_key,
}
use rust_local_storage_cdn.World.{Env}
use rust_local_storage_cdn.World.Actions.{Action, pure, lift, ◌>>=◌, draw}
use rust_local_storage_cdn.Keys.{get_key}

pub record StoreOptions : Type 0 where
  pub compress : Option Bool
  pub encrypt : Option Bool
  pub expires_at : Option ℕ
  pub compression_algorithm : Option Text
  pub compression_level : Option ℤ
  pub encryption_key_id : Option Text
  pub metadata : Option Text

-- `StoreOptions::default()`
abbrev pub default_options : StoreOptions
default_options = record {
  compress = none;
  encrypt = none;
  expires_at = none;
  compression_algorithm = none;
  compression_level = none;
  encryption_key_id = none;
  metadata = none;
}

-- What the storage layer is built from: the settings and the ciphers.
pub record StorageManager : Type 0 where
  pub config : Config
  pub crypto : CryptoManager

abbrev pub should_compress : StorageManager → StoreOptions → Bool
should_compress m opts = unwrap_or opts.compress m.config.compression.enabled

abbrev pub should_encrypt : StorageManager → StoreOptions → Bool
should_encrypt m opts = unwrap_or opts.encrypt m.config.crypto.enabled

abbrev pub upload_compression : StorageManager → StoreOptions → CompressionConfig
upload_compression m opts = record {
  enabled = true;
  algorithm = unwrap_or opts.compression_algorithm m.config.compression.algorithm;
  level = unwrap_or opts.compression_level m.config.compression.level;
  min_size = m.config.compression.min_size;
}

-- Only an outcome that is shorter is kept; a failure stores the content as it is.
abbrev keep_shorter : Bytes → StorageResult Bytes → Bytes × Bool
keep_shorter content (ok out) =
    if ltb (length out) (length content) then (out, true) else (content, false)
keep_shorter content (err e) = (content, false)

-- The compression stage: the bytes to go on with, and `is_compressed`.
unfoldable pub compress_stage : Env → StorageManager → StoreOptions → Bytes → Bytes × Bool
compress_stage env m opts content =
    if should_compress m opts && leb m.config.compression.min_size (length content)
    then keep_shorter content (compress env.codec (upload_compression m opts) content)
    else (content, false)

module _ (env : Env) (m : StorageManager) where
  abbrev pub sealed_under : Bytes → EncryptionAlgorithm → EncryptionKey → Action Bytes
  sealed_under content algorithm key = do
    nonce ← draw env.nonce
    lift (encrypt_with_key env.aead nonce content algorithm key.key_data)

  abbrev pub encrypt_under : Option Text → EncryptionAlgorithm → Bytes → Action Bytes
  encrypt_under (some key_id) algorithm content = do
    key ← get_key env key_id
    sealed_under content algorithm key
  encrypt_under none algorithm content = do
    nonce ← draw env.nonce
    lift (encrypt env.aead m.crypto nonce content algorithm)

  -- The encryption stage: the bytes to store, and `is_encrypted`.
  unfoldable pub encrypt_stage : StoreOptions → Bytes → Action (Bytes × Bool)
  encrypt_stage opts content =
      if should_encrypt m opts
      then (do
        algorithm ← lift (from_str m.config.crypto.algorithm)
        out ← encrypt_under opts.encryption_key_id algorithm content
        pure (out, true))
      else pure (content, false)

  abbrev pub decrypt_under : Option Text → EncryptionAlgorithm → Bytes → Action Bytes
  decrypt_under (some key_id) algorithm content = do
    key ← get_key env key_id
    lift (decrypt_with_key env.aead content algorithm key.key_data)
  decrypt_under none algorithm content = lift (decrypt env.aead m.crypto content algorithm)

  unfoldable pub decrypt_stage : StoredFile → Bytes → Action Bytes
  decrypt_stage file content =
      if unwrap_or file.is_encrypted false
      then (do
        algorithm ← lift (from_str (unwrap_or file.encryption_algorithm aes_name))
        decrypt_under file.encryption_key_id algorithm content)
      else pure content

  unfoldable pub decompress_stage : StoredFile → Bytes → Action Bytes
  decompress_stage file content =
      if unwrap_or file.is_compressed false
      then lift (decompress env.codec m.config.compression content)
      else pure content

  unfoldable pub decode_content : StoredFile → Bytes → Action Bytes
  decode_content file content = do plain ← decrypt_stage file content; decompress_stage file plain
