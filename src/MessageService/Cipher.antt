-- ===== src/MessageService/Cipher.antt =====
-- MessageService.cpp: `decryptMessage` and `encryptMessage`.
use encrypted_transmission_d.Prelude.{
  String, Bool, true, false, not, ◌==◌, is_empty, ◌<>◌, if◌then◌else◌,
}
use encrypted_transmission_d.Outside.{
  GcmEncryptResult, GcmDecryptResult, Outside, Server, pure, ◌>>=◌, on_host,
}

-- DecryptMessageResult and EncryptMessageResult.
pub record DecryptMessageResult : Type 0 where
  pub success : Bool
  pub plaintext : String
  pub error_msg : String

pub record EncryptMessageResult : Type 0 where
  pub success : Bool
  pub ciphertext : String
  pub nonce : String
  pub tag : String
  pub algorithm : String
  pub error_msg : String

abbrev pub aes_128_gcm : String
aes_128_gcm = "AES-128-GCM"

abbrev pub not_decrypted : String → DecryptMessageResult
not_decrypted error = record { success = false; plaintext = ""; error_msg = error }

abbrev pub not_encrypted : String → EncryptMessageResult
not_encrypted error = record {
  success = false;
  ciphertext = "";
  nonce = "";
  tag = "";
  algorithm = aes_128_gcm;
  error_msg = error;
}

abbrev pub decrypted : GcmDecryptResult → DecryptMessageResult
decrypted gcm =
    if gcm.success
    then record { success = true; plaintext = gcm.plaintext; error_msg = "" }
    else not_decrypted gcm.error_msg

module _ {E H : Type 0} (o : Outside E H) where
  unfoldable pub decrypt_message : String → String → String → String → String → DecryptMessageResult
  decrypt_message base64_key base64_ciphertext base64_nonce base64_tag algorithm =
      let raw_key = o.base64_decode base64_key in
      let cipher_bin = o.base64_decode base64_ciphertext in
      let nonce_bin = o.base64_decode base64_nonce in
      let tag_bin = o.base64_decode base64_tag in
      if not (algorithm == aes_128_gcm)
      then not_decrypted ("unsupported algorithm: " <> algorithm)
      else if is_empty raw_key
      then not_decrypted "failed to decode base64 key"
      else if is_empty cipher_bin
      then not_decrypted "failed to decode base64 ciphertext"
      else if is_empty nonce_bin
      then not_decrypted "failed to decode base64 nonce"
      else if is_empty tag_bin
      then not_decrypted "base64 tag decode failed"
      else decrypted (o.gcm_decrypt raw_key nonce_bin cipher_bin tag_bin)

  abbrev pub encoded : GcmEncryptResult → EncryptMessageResult
  encoded gcm =
      if gcm.success
      then record {
        success = true;
        ciphertext = o.base64_encode gcm.ciphertext;
        nonce = o.base64_encode gcm.nonce;
        tag = o.base64_encode gcm.tag;
        algorithm = aes_128_gcm;
        error_msg = "";
      }
      else not_encrypted gcm.error_msg

  unfoldable pub encrypt_message : String → String → Server E H EncryptMessageResult
  encrypt_message base64_key plaintext =
      let raw_key = o.base64_decode base64_key in
      if is_empty plaintext
      then pure (not_encrypted "plaintext is empty")
      else if is_empty raw_key
      then pure (not_encrypted "failed to decode receiver base64 key")
      else (do gcm ← on_host (o.gcm_encrypt raw_key plaintext); pure (encoded gcm))
