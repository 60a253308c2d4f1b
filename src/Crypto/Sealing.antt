-- ===== src/Crypto/Sealing.antt =====
-- AesGcmCrypto.cpp: what encrypt seals decrypt opens, and it opens nothing else.
use encrypted_transmission_d.Prelude.{
  ℕ, String, true, Option, some, len, eqb, ◌<>◌, ◌<◌, ◌≡◌, refl, inl, inr, arith, Bool-cases,
  Option-cases,
}
use encrypted_transmission_d.Outside.{GcmEncryptResult}
use encrypted_transmission_d.Crypto.Gcm.{
  Cipher, Evp, nonce_size, tag_size, cipher_by_key_len, or_else, finish_encrypt, encrypt_body,
  encrypt_with, encrypt, finish_decrypt, decrypt_with, decrypt_sized, decrypt,
}

-- The algorithm AES-GCM: the ciphertext of a text, the tag of a ciphertext, and the text of a
-- ciphertext.
pub record Algorithm : Type 0 where
  pub seal : Cipher → String → String → String → String
  pub tag_of : Cipher → String → String → String → String
  pub unseal : Cipher → String → String → String → String
  pub unseal-seal :
      (c : Cipher) (key nonce text : String) → unseal c key nonce (seal c key nonce text) ≡ text
  pub len-tag_of : (c : Cipher) (key nonce text : String) → len (tag_of c key nonce text) ≡ tag_size

-- What an `int` does not hold.
abbrev pub max_int : ℕ
max_int = 2147483648

-- The calls for decryption on a context, all of which succeed.
pub record Opening {C : Type 0} (e : Evp C) (cipher : Cipher) (key nonce text tag : String) (c0 : C)
    : Type 0 where
  pub c1 : C
  pub c2 : C
  pub c3 : C
  pub c4 : C
  pub c5 : C
  pub c6 : C
  pub body : String
  pub last : String
  pub initialised : e.decrypt_init cipher c0 ≡ some c1
  pub sized : e.set_iv_length nonce_size c1 ≡ some c2
  pub keyed : e.decrypt_key key nonce c2 ≡ some c3
  pub updated : e.decrypt_update text c3 ≡ some (body, c4)
  pub tagged : e.set_tag tag c4 ≡ some c5
  pub finished : e.decrypt_final c5 ≡ some (last, c6)

-- EVP runs it: the calls for encryption, where all succeed, give the ciphertext and the tag; those for
-- decryption, where all succeed, give the text, and the tag is that of the ciphertext; and with that
-- tag they all succeed, where the key and the nonce have the cipher's sizes and an `int` holds the
-- ciphertext's.
pub record IsGcm {C : Type 0} (e : Evp C) (a : Algorithm) : Type 0 where
  pub encrypts :
      (cipher : Cipher) (key nonce text : String) (c0 c1 c2 c3 c4 c5 : C) (body last tag : String)
      → e.encrypt_init cipher c0 ≡ some c1
      → e.set_iv_length nonce_size c1 ≡ some c2
      → e.encrypt_key key nonce c2 ≡ some c3
      → e.encrypt_update text c3 ≡ some (body, c4)
      → e.encrypt_final c4 ≡ some (last, c5)
      → e.get_tag tag_size c5 ≡ some tag
      → (body <> last ≡ a.seal cipher key nonce text)
        × (tag ≡ a.tag_of cipher key nonce (a.seal cipher key nonce text))
  pub decrypts :
      (cipher : Cipher) (key nonce text tag : String) (c0 c1 c2 c3 c4 c5 c6 : C)
      (body last : String)
      → e.decrypt_init cipher c0 ≡ some c1
      → e.set_iv_length nonce_size c1 ≡ some c2
      → e.decrypt_key key nonce c2 ≡ some c3
      → e.decrypt_update text c3 ≡ some (body, c4)
      → e.set_tag tag c4 ≡ some c5
      → e.decrypt_final c5 ≡ some (last, c6)
      → (body <> last ≡ a.unseal cipher key nonce text) × (tag ≡ a.tag_of cipher key nonce text)
  pub accepts :
      (cipher : Cipher) (key nonce text : String) (c0 : C)
      → cipher_by_key_len key ≡ some cipher
      → len nonce ≡ nonce_size
      → len text < max_int
      → Opening e cipher key nonce text (a.tag_of cipher key nonce text) c0

module _ {C : Type 0} (e : Evp C) (a : Algorithm) (g : IsGcm e a) where
  -- The result is the algorithm's, with the nonce that was drawn.
  pub record IsSealed (cipher : Cipher) (key nonce text : String) (r : GcmEncryptResult)
      : Type 0 where
    pub drawn : r.nonce ≡ nonce
    pub sealed : r.ciphertext ≡ a.seal cipher key nonce text
    pub tagged : r.tag ≡ a.tag_of cipher key nonce (a.seal cipher key nonce text)

  encrypt_with-IsSealed :
      (key nonce text : String) (cipher : Cipher) (c0 : C)
      → (encrypt_with e key nonce text cipher c0).success ≡ true
      → IsSealed cipher key nonce text (encrypt_with e key nonce text cipher c0)
  unfolding encrypt_with encrypt_body finish_encrypt or_else
  encrypt_with-IsSealed key nonce text cipher c0 h =
      elim (Option-cases (e.encrypt_init cipher c0)) [
        | inl n ↦ absurd (let h' = rw n at h in cc)
        | inr (c1, e1) ↦ elim (Option-cases (e.set_iv_length nonce_size c1)) [
          | inl n ↦ absurd (let h' = rw (e1, n) at h in cc)
          | inr (c2, e2) ↦ elim (Option-cases (e.encrypt_key key nonce c2)) [
            | inl n ↦ absurd (let h' = rw (e1, e2, n) at h in cc)
            | inr (c3, e3) ↦ elim (Option-cases (e.encrypt_update text c3)) [
              | inl n ↦ absurd (let h' = rw (e1, e2, e3, n) at h in cc)
              | inr ((body, c4), e4) ↦ elim (Option-cases (e.encrypt_final c4)) [
                | inl n ↦ absurd (let h' = rw (e1, e2, e3, e4, n) at h in cc)
                | inr ((last, c5), e5) ↦ elim (Option-cases (e.get_tag tag_size c5)) [
                  | inl n ↦ absurd (let h' = rw (e1, e2, e3, e4, e5, n) at h in cc)
                  | inr (tag, e6) ↦
                      let (x, y) =
                        g.encrypts cipher key nonce text c0 c1 c2 c3 c4 c5 body last tag e1 e2 e3 e4
                          e5 e6 in
                      rw (e1, e2, e3, e4, e5, e6) (record { drawn = refl; sealed = x; tagged = y })
                ]
              ]
            ]
          ]
        ]
      ]

  -- An encryption that reports success has a key of 16, 24 or 32 bytes and a nonce from RAND_bytes,
  -- and its ciphertext and tag are those of AES-GCM under them.
  pub encrypt-IsSealed :
      (random : Option String) (context : Option C) (key text : String)
      → (encrypt e random context key text).success ≡ true
      → (cipher : Cipher) × (nonce : String) × (cipher_by_key_len key ≡ some cipher)
        × (random ≡ some nonce)
        × IsSealed cipher key nonce text (encrypt e random context key text)
  unfolding encrypt or_else
  encrypt-IsSealed random context key text h = elim (Option-cases (cipher_by_key_len key)) [
    | inl n ↦ absurd (let h' = rw n at h in cc)
    | inr (cipher, k) ↦ elim (Option-cases random) [
      | inl n ↦ absurd (let h' = rw (k, n) at h in cc)
      | inr (nonce, r) ↦ elim (Option-cases context) [
        | inl n ↦ absurd (let h' = rw (k, r, n) at h in cc)
        | inr (c0, c) ↦
            rw (k, r, c)
              (
                cipher,
                nonce,
                refl,
                refl,
                encrypt_with-IsSealed key nonce text cipher c0 (rw (k, r, c) at h),
              )
      ]
    ]
  ]

  decrypt_with-Opens :
      (key nonce text tag : String) (cipher : Cipher) (c0 : C)
      → (decrypt_with e key nonce text tag cipher c0).success ≡ true
      → ((decrypt_with e key nonce text tag cipher c0).plaintext ≡ a.unseal cipher key nonce text)
        × (tag ≡ a.tag_of cipher key nonce text)
  unfolding decrypt_with finish_decrypt or_else
  decrypt_with-Opens key nonce text tag cipher c0 h =
      elim (Option-cases (e.decrypt_init cipher c0)) [
        | inl n ↦ absurd (let h' = rw n at h in cc)
        | inr (c1, e1) ↦ elim (Option-cases (e.set_iv_length nonce_size c1)) [
          | inl n ↦ absurd (let h' = rw (e1, n) at h in cc)
          | inr (c2, e2) ↦ elim (Option-cases (e.decrypt_key key nonce c2)) [
            | inl n ↦ absurd (let h' = rw (e1, e2, n) at h in cc)
            | inr (c3, e3) ↦ elim (Option-cases (e.decrypt_update text c3)) [
              | inl n ↦ absurd (let h' = rw (e1, e2, e3, n) at h in cc)
              | inr ((body, c4), e4) ↦ elim (Option-cases (e.set_tag tag c4)) [
                | inl n ↦ absurd (let h' = rw (e1, e2, e3, e4, n) at h in cc)
                | inr (c5, e5) ↦ elim (Option-cases (e.decrypt_final c5)) [
                  | inl n ↦ absurd (let h' = rw (e1, e2, e3, e4, e5, n) at h in cc)
                  | inr ((last, c6), e6) ↦
                      let (x, y) =
                        g.decrypts cipher key nonce text tag c0 c1 c2 c3 c4 c5 c6 body last e1 e2 e3
                          e4 e5 e6 in
                      rw (e1, e2, e3, e4, e5, e6) (x, y)
                ]
              ]
            ]
          ]
        ]
      ]

  -- A decryption that reports success has a key of 16, 24 or 32 bytes, a nonce of 12 and the tag that
  -- AES-GCM gives the ciphertext under them, so that a ciphertext, nonce or tag changed on the way is
  -- refused unless the tag fits it; and its text is the one that AES-GCM gives the ciphertext.
  pub decrypt_authenticates :
      (context : Option C) (key nonce text tag : String)
      → (decrypt e context key nonce text tag).success ≡ true
      → (cipher : Cipher) × (cipher_by_key_len key ≡ some cipher)
        × (len nonce ≡ nonce_size)
        × (tag ≡ a.tag_of cipher key nonce text)
        × ((decrypt e context key nonce text tag).plaintext ≡ a.unseal cipher key nonce text)
  unfolding decrypt decrypt_sized or_else
  decrypt_authenticates context key nonce text tag h = elim (Option-cases (cipher_by_key_len key)) [
    | inl n ↦ absurd (let h' = rw n at h in cc)
    | inr (cipher, k) ↦ elim (Bool-cases (eqb (len nonce) nonce_size)) [
      | inr n ↦ absurd (let h' = rw (k, n) at h in cc)
      | inl size ↦ elim (Bool-cases (eqb (len tag) tag_size)) [
        | inr n ↦ absurd (let h' = rw (k, size, n) at h in cc)
        | inl tag_fits ↦ elim (Option-cases context) [
          | inl n ↦ absurd (let h' = rw (k, size, tag_fits, n) at h in cc)
          | inr (c0, c) ↦
              let (x, y) =
                decrypt_with-Opens key nonce text tag cipher c0 (rw (k, size, tag_fits, c) at h) in
              let sized : len nonce ≡ nonce_size = ground arith in
              rw (k, size, tag_fits, c) (cipher, refl, sized, y, x)
        ]
      ]
    ]
  ]
