-- ===== src/Crypto.antt =====
-- local-storage/src/crypto.rs: `EncryptionAlgorithm` and `CryptoManager`. The ciphers, the hex
-- decoder and the random bytes are what the source calls of other crates: a record of operations,
-- and the drawn nonce or key as an argument.
pub mod Laws
use rust_local_storage_cdn.Prelude.{
  ℕ, Text, Bytes, str, text_eq, Bool, not, Option, none, some, ◌++◌, length, take, drop, ltb, ◌==◌,
  if◌then◌else◌, Result, ok, err, map_err, and_then, ok_or, ◌≡◌, unwrap_or,
}
use rust_local_storage_cdn.Errors.{StorageError, StorageResult}
use rust_local_storage_cdn.Config.{CryptoConfig}
use rust_local_storage_cdn.Models.{StoredFile}

pub data EncryptionAlgorithm : Type 0 where
  aes_gcm chacha20_poly1305 : EncryptionAlgorithm

abbrev pub aes_name : Text
aes_name = str "aes-gcm"

abbrev pub chacha_name : Text
chacha_name = str "chacha20poly1305"

unfoldable pub as_str : EncryptionAlgorithm → Text
as_str aes_gcm = aes_name
as_str chacha20_poly1305 = chacha_name

unfoldable pub from_str : Text → StorageResult EncryptionAlgorithm
from_str s =
    if text_eq s aes_name
    then ok aes_gcm
    else if text_eq s chacha_name
    then ok chacha20_poly1305
    else err (StorageError.invalid_encryption_algorithm (str "Unsupported algorithm: " ++ s))

-- The AEAD ciphers: key, nonce and content.
pub record Aead : Type 0 where
  pub seal : EncryptionAlgorithm → Bytes → Bytes → Bytes → Result Text Bytes
  pub unseal : EncryptionAlgorithm → Bytes → Bytes → Bytes → Result Text Bytes

-- Decryption under the same key and nonce gives back what was encrypted.
pub record IsAead (a : Aead) : Type 0 where
  pub seal_law :
      (alg : EncryptionAlgorithm) (key nonce content out : Bytes)
      → a.seal alg key nonce content ≡ ok out
      → a.unseal alg key nonce out ≡ ok content

-- A cipher is its key: `aes_key` and `chacha_key` are the ciphers that were initialised.
pub record CryptoManager : Type 0 where
  pub config : CryptoConfig
  pub aes_key : Option Bytes
  pub chacha_key : Option Bytes

-- The key of the configuration: 64 hex digits, or 32 bytes as they are; a random one if none is set.
unfoldable pub key_bytes :
    (hex_decode : Text → Result Text Bytes) (random_key : Bytes) → Option Text → StorageResult Bytes
key_bytes hex_decode random_key none = ok random_key
key_bytes hex_decode random_key (some key_str) =
    if length key_str == 64
    then map_err (λ e. StorageError.encryption (str "Invalid hex key: " ++ e)) (hex_decode key_str)
    else if length key_str == 32
    then ok key_str
    else err (StorageError.encryption (str "Key must be 32 bytes or 64 hex characters"))

abbrev bad_key_length : StorageError
bad_key_length = StorageError.encryption (str "Key must be exactly 32 bytes")

abbrev with_cipher : CryptoManager → Bytes → StorageResult CryptoManager
with_cipher m key =
    if text_eq m.config.algorithm aes_name
    then ok (record m { aes_key = some key })
    else if text_eq m.config.algorithm chacha_name
    then ok (record m { chacha_key = some key })
    else err
        (StorageError.encryption (str "Unsupported encryption algorithm: " ++ m.config.algorithm))

unfoldable pub init_cipher :
    (hex_decode : Text → Result Text Bytes) (random_key : Bytes)
    → CryptoManager
    → StorageResult CryptoManager
unfolding key_bytes
init_cipher hex_decode random_key m =
    and_then (key_bytes hex_decode random_key m.config.key)
      (λ key. if not (length key == 32) then err bad_key_length else with_cipher m key)

unfoldable pub new_crypto :
    (hex_decode : Text → Result Text Bytes) (random_key : Bytes)
    → CryptoConfig
    → StorageResult CryptoManager
unfolding init_cipher
new_crypto hex_decode random_key config =
    let m : CryptoManager = record { config = config; aes_key = none; chacha_key = none } in
    if config.enabled then init_cipher hex_decode random_key m else ok m

abbrev cipher_text : EncryptionAlgorithm → Text
cipher_text aes_gcm = str "AES"
cipher_text chacha20_poly1305 = str "ChaCha20"

abbrev encryption_failed : EncryptionAlgorithm → Text → StorageError
encryption_failed alg e =
    StorageError.encryption (cipher_text alg ++ (str " encryption failed: " ++ e))

abbrev decryption_failed : EncryptionAlgorithm → Text → StorageError
decryption_failed alg e =
    StorageError.encryption (cipher_text alg ++ (str " decryption failed: " ++ e))

abbrev pub not_initialized : EncryptionAlgorithm → StorageError
not_initialized alg = StorageError.encryption (cipher_text alg ++ str " cipher not initialized")

abbrev too_short : StorageError
too_short = StorageError.encryption (str "Invalid encrypted data: too short")

-- The nonce goes before the ciphertext.
unfoldable pub seal_with :
    Aead → EncryptionAlgorithm → (key nonce content : Bytes) → StorageResult Bytes
seal_with a alg key nonce content =
    and_then (map_err (encryption_failed alg) (a.seal alg key nonce content))
      (λ ciphertext. ok (nonce ++ ciphertext))

unfoldable pub unseal_with :
    Aead → EncryptionAlgorithm → (key encrypted : Bytes) → StorageResult Bytes
unseal_with a alg key encrypted =
    map_err (decryption_failed alg) (a.unseal alg key (take 12 encrypted) (drop 12 encrypted))

abbrev pub cipher_of : CryptoManager → EncryptionAlgorithm → Option Bytes
cipher_of m aes_gcm = m.aes_key
cipher_of m chacha20_poly1305 = m.chacha_key

-- `encrypt_aes` and `encrypt_chacha`
unfoldable pub encrypt_cipher :
    Aead → CryptoManager → EncryptionAlgorithm → (nonce content : Bytes) → StorageResult Bytes
encrypt_cipher a m alg nonce content =
    and_then (ok_or (cipher_of m alg) (not_initialized alg))
      (λ key. seal_with a alg key nonce content)

-- `decrypt_aes` and `decrypt_chacha`
unfoldable pub decrypt_cipher :
    Aead → CryptoManager → EncryptionAlgorithm → (encrypted : Bytes) → StorageResult Bytes
decrypt_cipher a m alg encrypted =
    if ltb (length encrypted) 12
    then err too_short
    else and_then (ok_or (cipher_of m alg) (not_initialized alg))
        (λ key. unseal_with a alg key encrypted)

unfoldable pub encrypt :
    Aead → CryptoManager → (nonce content : Bytes) → EncryptionAlgorithm → StorageResult Bytes
encrypt a m nonce content alg =
    if not m.config.enabled then ok content else encrypt_cipher a m alg nonce content

unfoldable pub decrypt :
    Aead → CryptoManager → (content : Bytes) → EncryptionAlgorithm → StorageResult Bytes
decrypt a m content alg =
    if not m.config.enabled then ok content else decrypt_cipher a m alg content

unfoldable pub encrypt_file :
    Aead → CryptoManager → (nonce : Bytes) → StoredFile → Bytes → StorageResult Bytes
encrypt_file a m nonce file content =
    and_then (from_str (unwrap_or file.encryption_algorithm aes_name)) (encrypt a m nonce content)

unfoldable pub decrypt_file : Aead → CryptoManager → StoredFile → Bytes → StorageResult Bytes
decrypt_file a m file content =
    and_then (from_str (unwrap_or file.encryption_algorithm aes_name)) (decrypt a m content)

unfoldable pub encrypt_with_key :
    Aead → (nonce content : Bytes) → EncryptionAlgorithm → (key : Bytes) → StorageResult Bytes
encrypt_with_key a nonce content alg key =
    if not (length key == 32) then err bad_key_length else seal_with a alg key nonce content

unfoldable pub decrypt_with_key :
    Aead → (encrypted : Bytes) → EncryptionAlgorithm → (key : Bytes) → StorageResult Bytes
decrypt_with_key a encrypted alg key =
    if not (length key == 32)
    then err bad_key_length
    else if ltb (length encrypted) 12
    then err too_short
    else unseal_with a alg key encrypted
