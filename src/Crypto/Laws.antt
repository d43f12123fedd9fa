-- ===== src/Crypto/Laws.antt =====
-- What encryption and decryption do to one another.
use rust_local_storage_cdn.Prelude.{
  ◌≤◌, Text, Bytes, ok_or, ◌++◌, length, length-append, take, drop, take_exact, drop_exact, ok,
  and_then-eq-ok, map_err-eq-ok, ◌≡◌, ◌↔◌, arith, text_eq_iff,
}
use rust_local_storage_cdn.Crypto.{
  EncryptionAlgorithm, aes_gcm, chacha20_poly1305, as_str, from_str, Aead, IsAead, CryptoManager,
  seal_with, unseal_with, encrypt, decrypt, encrypt_with_key, decrypt_with_key, aes_name,
  chacha_name, encrypt_cipher, decrypt_cipher, cipher_of, not_initialized,
}

-- An algorithm is parsed from a text exactly when the text is its name.
pub from_str_iff : (s : Text) (alg : EncryptionAlgorithm) → (from_str s ≡ ok alg) ↔ (s ≡ as_str alg)
unfolding from_str as_str
from_str_iff s aes_gcm = ground (arith, text_eq_iff s aes_name, text_eq_iff s chacha_name)
from_str_iff s chacha20_poly1305 = ground (arith, text_eq_iff s aes_name, text_eq_iff s chacha_name)

module _ (a : Aead) (law : IsAead a) where
  take_nonce : (nonce rest : Bytes) → length nonce ≡ 12 → take 12 (nonce ++ rest) ≡ nonce
  take_nonce nonce rest h = rw (← h) (take_exact nonce rest)

  drop_nonce : (nonce rest : Bytes) → length nonce ≡ 12 → drop 12 (nonce ++ rest) ≡ rest
  drop_nonce nonce rest h = rw (← h) (drop_exact nonce rest)

  long_enough : (nonce ct out : Bytes) → length nonce ≡ 12 → out ≡ nonce ++ ct → 12 ≤ length out
  long_enough nonce ct out h split = rw split (omega (arith, length-append nonce ct))

  unseal-seal :
      (alg : EncryptionAlgorithm) (key nonce content out : Bytes)
      → length nonce ≡ 12
      → seal_with a alg key nonce content ≡ ok out
      → (unseal_with a alg key out ≡ ok content) × (12 ≤ length out)
  unfolding seal_with unseal_with
  unseal-seal alg key nonce content out h e =
      let (ct, sealed, joined) = and_then-eq-ok _ _ e in
      let split : out ≡ nonce ++ ct = cc in
      (
        rw (
          split,
          take_nonce nonce ct h,
          drop_nonce nonce ct h,
          law.seal_law alg key nonce content ct (map_err-eq-ok _ _ sealed),
        ),
        long_enough nonce ct out h split,
      )

  decrypt_cipher-encrypt_cipher :
      (m : CryptoManager) (nonce content out : Bytes) (alg : EncryptionAlgorithm)
      → length nonce ≡ 12
      → encrypt_cipher a m alg nonce content ≡ ok out
      → decrypt_cipher a m alg out ≡ ok content
  unfolding encrypt_cipher decrypt_cipher
  decrypt_cipher-encrypt_cipher m nonce content out alg h e =
      let (key, found, sealed) =
        and_then-eq-ok (ok_or (cipher_of m alg) (not_initialized alg))
          (λ key. seal_with a alg key nonce content) e in
      let (back, long) = unseal-seal alg key nonce content out h sealed in
      ground (arith, found, back)

  -- With a lawful AEAD: what the configured cipher encrypts under a 12-byte nonce it decrypts to the same content; with
  -- encryption disabled both leave the content as it is.
  pub decrypt-encrypt :
      (m : CryptoManager) (nonce content out : Bytes) (alg : EncryptionAlgorithm)
      → length nonce ≡ 12
      → encrypt a m nonce content alg ≡ ok out
      → decrypt a m out alg ≡ ok content
  unfolding encrypt decrypt
  decrypt-encrypt m nonce content out alg h e =
      ground (arith, decrypt_cipher-encrypt_cipher m nonce content out alg)

  -- With a lawful AEAD: what a per-file key encrypts under a 12-byte nonce it decrypts to the same content.
  pub decrypt_with_key-encrypt_with_key :
      (nonce content out key : Bytes) (alg : EncryptionAlgorithm)
      → length nonce ≡ 12
      → encrypt_with_key a nonce content alg key ≡ ok out
      → decrypt_with_key a out alg key ≡ ok content
  unfolding encrypt_with_key decrypt_with_key
  decrypt_with_key-encrypt_with_key nonce content out key alg h e =
      ground (arith, unseal-seal alg key nonce content out)
