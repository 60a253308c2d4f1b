-- ===== src/MessageService/Readable.antt =====
-- MessageService.cpp, `decryptMessage`: an answer that reports success holds a text, and no error.
use encrypted_transmission_d.Prelude.{
  String, Bool, true, false, not, ◌≡◌, refl, is_empty, ◌<>◌, ◌==◌, if◌then◌else◌,
}
use encrypted_transmission_d.Outside.{GcmDecryptResult, Outside}
use encrypted_transmission_d.MessageService.Cipher.{
  DecryptMessageResult, aes_128_gcm, not_decrypted, decrypted, decrypt_message,
}

abbrev pub readable : String → DecryptMessageResult
readable plaintext = record { success = true; plaintext = plaintext; error_msg = "" }

-- An answer of `decryptMessage` that reports success holds a text, and no error.
pub record IsReadable (r : DecryptMessageResult) : Type 0 where
  pub reads : r.success ≡ true → r ≡ readable r.plaintext

if-IsReadable :
    (b : Bool) (error : String) (r : DecryptMessageResult)
    → IsReadable r
    → IsReadable (if b then not_decrypted error else r)
if-IsReadable true error r h = record { reads = λ ok. absurd (cc) }
if-IsReadable false error r h = h

decrypted-IsReadable : (gcm : GcmDecryptResult) → IsReadable (decrypted gcm)
decrypted-IsReadable gcm = go gcm.success
  where
    go :
        (b : Bool)
        → IsReadable (
            if b
            then record { success = true; plaintext = gcm.plaintext; error_msg = "" }
            else not_decrypted gcm.error_msg)
    go true = record { reads = λ ok. refl }
    go false = record { reads = λ ok. absurd (cc) }

pub decrypt_message-IsReadable :
    {E H : Type 0} (o : Outside E H) (key ciphertext nonce tag algorithm : String)
    → IsReadable (decrypt_message o key ciphertext nonce tag algorithm)
unfolding decrypt_message
decrypt_message-IsReadable o key ciphertext nonce tag algorithm =
    if-IsReadable (not (algorithm == aes_128_gcm)) ("unsupported algorithm: " <> algorithm) _ (
      if-IsReadable (is_empty (o.base64_decode key)) "failed to decode base64 key" _ (
        if-IsReadable (is_empty (o.base64_decode ciphertext)) "failed to decode base64 ciphertext" _
          (if-IsReadable (is_empty (o.base64_decode nonce)) "failed to decode base64 nonce" _ (
            if-IsReadable (is_empty (o.base64_decode tag)) "base64 tag decode failed" _ (
              decrypted-IsReadable (
                o.gcm_decrypt (o.base64_decode key) (o.base64_decode nonce)
                  (o.base64_decode ciphertext) (o.base64_decode tag)))))))
