-- ===== src/MessageService/Reencryption.antt =====
-- MessageService.cpp: `decryptMessage` undoes `encryptMessage`.
use encrypted_transmission_d.Prelude.{String, true, false, ◌≡◌, inl, inr, is_empty, Bool-cases}
use encrypted_transmission_d.Outside.{Outside, World}
use encrypted_transmission_d.Outside.Laws.{IsSound}
use encrypted_transmission_d.MessageService.Cipher.{decrypt_message, encrypt_message, aes_128_gcm}

module _ {E H : Type 0} (o : Outside E H) (sound : IsSound o) where
  -- With a GCM result that is encoded, the tests of `decryptMessage` all pass.
  pub decrypt_message-encoded :
      (key plaintext : String) (h : H)
      → is_empty plaintext ≡ false
      → is_empty (o.base64_decode key) ≡ false
      → let gcm = (o.gcm_encrypt (o.base64_decode key) plaintext h).0 in
        gcm.success ≡ true
        → decrypt_message o key
            (o.base64_encode gcm.ciphertext)
            (o.base64_encode gcm.nonce)
            (o.base64_encode gcm.tag)
            aes_128_gcm
          ≡ record { success = true; plaintext = plaintext; error_msg = "" }
  unfolding decrypt_message
  decrypt_message-encoded key plaintext h text raw success =
      let (cipher, nonce, tag) =
        sound.gcm_nonempty (o.base64_decode key) plaintext h text success in
      simp (
        sound.base64_decode-encode,
        raw,
        cipher,
        nonce,
        tag,
        sound.gcm_decrypt-encrypt (o.base64_decode key) plaintext h success,
      )

  -- With base64 and AES-GCM that undo themselves, what `encryptMessage` makes of a text where it
  -- reports success, `decryptMessage` turns back to the text under the same key.
  pub decrypt_message-encrypt_message :
      (key plaintext : String) (w : World E H)
      → (encrypt_message o key plaintext w).0.success ≡ true
      → let enc = (encrypt_message o key plaintext w).0 in
        decrypt_message o key enc.ciphertext enc.nonce enc.tag enc.algorithm
        ≡ record { success = true; plaintext = plaintext; error_msg = "" }
  unfolding encrypt_message
  decrypt_message-encrypt_message key plaintext w h = elim (Bool-cases (is_empty plaintext)) [
    | inl e ↦ absurd (let h' = rw e at h in cc)
    | inr text ↦ elim (Bool-cases (is_empty (o.base64_decode key))) [
      | inl e ↦ absurd (let h' = rw e at (rw text at h) in cc)
      | inr raw ↦
          elim (Bool-cases (o.gcm_encrypt (o.base64_decode key) plaintext w.host).0.success) [
            | inr e ↦ absurd (let h' = rw e at (rw raw at (rw text at h)) in cc)
            | inl ok ↦
                rw text (rw raw (rw ok (decrypt_message-encoded key plaintext w.host text raw ok)))
          ]
    ]
  ]
