-- ===== src/Crypto/Gcm.antt =====
-- AesGcmCrypto.cpp: encrypt and decrypt over the EVP calls. A call that does not answer 1 is `none`.
-- What RAND_bytes and EVP_CIPHER_CTX_new answered are arguments.
use encrypted_transmission_d.Prelude.{
  ℕ, String, true, false, not, Option, none, some, len, eqb, ◌<>◌, if◌then◌else◌,
}
use encrypted_transmission_d.Outside.{GcmEncryptResult, GcmDecryptResult}

pub data Cipher : Type 0 where
  aes_128 aes_192 aes_256 : Cipher

-- The calls on a context `C`. Those that write to a buffer answer what they wrote.
pub record Evp (C : Type 0) : Type 0 where
  pub encrypt_init : Cipher → C → Option C
  pub decrypt_init : Cipher → C → Option C
  pub set_iv_length : ℕ → C → Option C
  pub encrypt_key : String → String → C → Option C
  pub decrypt_key : String → String → C → Option C
  pub encrypt_update : String → C → Option (String × C)
  pub decrypt_update : String → C → Option (String × C)
  pub encrypt_final : C → Option (String × C)
  pub decrypt_final : C → Option (String × C)
  pub get_tag : ℕ → C → Option String
  pub set_tag : String → C → Option C

abbrev pub nonce_size : ℕ
nonce_size = 12

abbrev pub tag_size : ℕ
tag_size = 16

-- getCipherByKeyLen
unfoldable pub cipher_by_key_len : String → Option Cipher
cipher_by_key_len key =
    if eqb (len key) 16
    then some aes_128
    else if eqb (len key) 24
    then some aes_192
    else if eqb (len key) 32
    then some aes_256
    else none

abbrev pub not_sealed : String → GcmEncryptResult
not_sealed error = record {
  success = false;
  ciphertext = "";
  nonce = "";
  tag = "";
  error_msg = error;
}

abbrev pub not_opened : String → GcmDecryptResult
not_opened error = record { success = false; plaintext = ""; error_msg = error }

-- A call, and the error text with which the function returns where it fails.
unfoldable pub or_else : {A R : Type 0} → Option A → R → (A → R) → R
or_else none failed next = failed
or_else (some a) failed next = next a

module _ {C : Type 0} (e : Evp C) where
  unfoldable pub finish_encrypt : String → String → String × C → GcmEncryptResult
  finish_encrypt nonce body (last, c) =
      or_else (e.get_tag tag_size c) (not_sealed "get GCM tag failed") (λ tag. record {
        success = true;
        ciphertext = body <> last;
        nonce = nonce;
        tag = tag;
        error_msg = "";
      })

  unfoldable pub encrypt_body : String → String × C → GcmEncryptResult
  encrypt_body nonce (body, c) =
      or_else (e.encrypt_final c) (not_sealed "EVP_EncryptFinal_ex failed")
        (finish_encrypt nonce body)

  unfoldable pub encrypt_with : String → String → String → Cipher → C → GcmEncryptResult
  encrypt_with key nonce plaintext cipher c0 =
      or_else (e.encrypt_init cipher c0) (not_sealed "EVP_EncryptInit_ex failed") (λ c1.
        or_else (e.set_iv_length nonce_size c1) (not_sealed "EVP_CTRL_GCM_SET_IVLEN failed") (λ c2.
          or_else (e.encrypt_key key nonce c2)
            (not_sealed "EVP_EncryptInit_ex set key/nonce failed")
            (λ c3.
              or_else (e.encrypt_update plaintext c3) (not_sealed "EVP_EncryptUpdate failed")
                (encrypt_body nonce))))

  unfoldable pub encrypt : Option String → Option C → String → String → GcmEncryptResult
  encrypt random context key plaintext =
      or_else (cipher_by_key_len key) (not_sealed "unsupported AES key length") (λ cipher.
        or_else random (not_sealed "generate nonce failed") (λ nonce.
          or_else context (not_sealed "create EVP_CIPHER_CTX failed")
            (encrypt_with key nonce plaintext cipher)))

  unfoldable pub finish_decrypt : String → String → C → GcmDecryptResult
  finish_decrypt body tag c = or_else (e.set_tag tag c) (not_opened "set GCM tag failed") (λ c'.
      or_else (e.decrypt_final c') (not_opened "GCM authentication failed")
        (λ r. record { success = true; plaintext = body <> r.0; error_msg = "" }))

  unfoldable pub decrypt_with : String → String → String → String → Cipher → C → GcmDecryptResult
  decrypt_with key nonce ciphertext tag cipher c0 =
      or_else (e.decrypt_init cipher c0) (not_opened "EVP_DecryptInit_ex failed") (λ c1.
        or_else (e.set_iv_length nonce_size c1) (not_opened "set GCM IV len failed") (λ c2.
          or_else (e.decrypt_key key nonce c2) (not_opened "set key and nonce failed") (λ c3.
            or_else (e.decrypt_update ciphertext c3) (not_opened "EVP_DecryptUpdate failed")
              (λ r. finish_decrypt r.0 tag r.1))))

  unfoldable pub decrypt_sized :
      Option C → String → String → String → String → Cipher → GcmDecryptResult
  decrypt_sized context key nonce ciphertext tag cipher =
      if not (eqb (len nonce) nonce_size)
      then not_opened "invalid nonce size"
      else if not (eqb (len tag) tag_size)
      then not_opened "invalid tag size"
      else or_else context (not_opened "create EVP_CIPHER_CTX failed")
          (decrypt_with key nonce ciphertext tag cipher)

  unfoldable pub decrypt : Option C → String → String → String → String → GcmDecryptResult
  decrypt context key nonce ciphertext tag =
      or_else (cipher_by_key_len key) (not_opened "unsupported AES key length")
        (decrypt_sized context key nonce ciphertext tag)
