-- ===== src/Client/Encryption.antt =====
-- MessageClient.cpp, encryptText: it is the server's encryptMessage, and the server's decryptMessage
-- undoes it.
use encrypted_transmission_d.Prelude.{
  String, true, false, ◌≡◌, refl, inl, inr, is_empty, Bool-cases,
}
use encrypted_transmission_d.Outside.{Outside, World, GcmEncryptResult}
use encrypted_transmission_d.Outside.Laws.{IsSound}
use encrypted_transmission_d.MessageService.Cipher.{
  decrypt_message, encrypt_message, encoded, EncryptMessageResult,
}
use encrypted_transmission_d.MessageService.Readable.{readable}
use encrypted_transmission_d.MessageService.Reencryption.{decrypt_message-encoded}
use encrypted_transmission_d.Client.Base.{Process, then_run}
use encrypted_transmission_d.Client.Messages.{EncryptTextResult, encoded_text, encrypt_text}
use encrypted_transmission_d.Client.Rules.{Ends}

-- The two results agree in all that is sent.
pub record SameCipher (r : EncryptTextResult) (m : EncryptMessageResult) : Type 0 where
  pub success : r.success ≡ m.success
  pub ciphertext : r.ciphertext ≡ m.ciphertext
  pub nonce : r.nonce ≡ m.nonce
  pub tag : r.tag ≡ m.tag
  pub algorithm : r.success ≡ true → r.algorithm ≡ m.algorithm

module _ {E H : Type 0} (o : Outside E H) where
  encoded_text-SameCipher :
      (gcm : GcmEncryptResult) → SameCipher (encoded_text o gcm) (encoded o gcm)
  unfolding encoded_text
  encoded_text-SameCipher gcm = elim (Bool-cases gcm.success) [
    | inl ok ↦ rw ok (record {
      success = refl;
      ciphertext = refl;
      nonce = refl;
      tag = refl;
      algorithm = λ x. refl;
    })
    | inr bad ↦ rw bad (record {
      success = refl;
      ciphertext = refl;
      nonce = refl;
      tag = refl;
      algorithm = λ x. cc;
    })
  ]

  -- On a text that is not empty and on the same machine, encryptText of the client and encryptMessage
  -- of the server report the same success, with the same ciphertext, nonce and tag, and where they
  -- succeed the same algorithm, and they leave the same machine.
  pub encrypt_text-SameCipher :
      (key plaintext : String) (u : Process H) (w : World E H)
      → is_empty plaintext ≡ false
      → w.host ≡ u.host
      → Ends ⊥ (encrypt_text o key plaintext u) (λ r u'.
        SameCipher r (encrypt_message o key plaintext w).0
        × ((encrypt_message o key plaintext w).1.host ≡ u'.host))
  unfolding encrypt_text encrypt_message then_run
  encrypt_text-SameCipher key plaintext u w named same =
      elim (Bool-cases (is_empty (o.base64_decode key))) [
        | inl bad ↦
            rw (named, bad)
              (record {
                at = (
                  record {
                    success = refl;
                    ciphertext = refl;
                    nonce = refl;
                    tag = refl;
                    algorithm = λ x. absurd (cc);
                  },
                  same,
                );
              })
        | inr raw ↦ rw (named, raw, same) (record { at = (encoded_text-SameCipher _, refl) })
      ]

  -- With base64 and AES-GCM that undo themselves, what encryptText makes of a text that is not empty,
  -- where it reports success, the server's decryptMessage turns back to the text under the same key.
  pub decrypt_message-encrypt_text :
      (sound : IsSound o) (key plaintext : String) (u : Process H)
      → is_empty plaintext ≡ false
      → Ends ⊥ (encrypt_text o key plaintext u) (λ r u'.
        r.success ≡ true
        → decrypt_message o key r.ciphertext r.nonce r.tag r.algorithm ≡ readable plaintext)
  unfolding encrypt_text encoded_text then_run
  decrypt_message-encrypt_text sound key plaintext u named =
      elim (Bool-cases (is_empty (o.base64_decode key))) [
        | inl bad ↦ rw bad (record { at = λ x. absurd (cc) })
        | inr raw ↦
            elim (Bool-cases (o.gcm_encrypt (o.base64_decode key) plaintext u.host).0.success) [
              | inl ok ↦
                  rw (raw, ok)
                    (record {
                      at = λ x. decrypt_message-encoded o sound key plaintext u.host named raw ok;
                    })
              | inr fails ↦ rw (raw, fails) (record { at = λ x. absurd (cc) })
            ]
      ]
