-- ===== src/Tests/Crypto.antt =====
-- Runs of the theorems on AES-GCM: a cipher that leaves the text as it is and tags it with one tag.
use encrypted_transmission_d.Prelude.{String, Option, none, some, ◌==◌, refl, if◌then◌else◌}
use Prim.Native.String.append
use encrypted_transmission_d.Crypto.Gcm.{Evp}
use encrypted_transmission_d.Crypto.Sealing.{Algorithm}

-- What a context holds: the text, and the tag that it was given.
record Context : Type 0 where
  held : String
  given : String

abbrev fixed_tag : String
fixed_tag = "0123456789abcdef"

unfoldable final : Context → Option (String × Context)
final c = if c.given == fixed_tag then some (c.held, c) else none

abbrev evp : Evp Context
evp = record {
  encrypt_init = λ cipher c. some c;
  decrypt_init = λ cipher c. some c;
  set_iv_length = λ n c. some c;
  encrypt_key = λ key nonce c. some c;
  decrypt_key = λ key nonce c. some c;
  encrypt_update = λ text c. some ("", record c { held = text });
  decrypt_update = λ text c. some ("", record c { held = text });
  encrypt_final = λ c. some (c.held, c);
  decrypt_final = final;
  get_tag = λ n c. some fixed_tag;
  set_tag = λ tag c. some (record c { given = tag });
}

abbrev plain : Algorithm
plain = record {
  seal = λ cipher key nonce text. text;
  tag_of = λ cipher key nonce text. fixed_tag;
  unseal = λ cipher key nonce text. text;
  unseal-seal = λ cipher key nonce text. refl;
  len-tag_of = λ cipher key nonce text. refl;
}

abbrev context : Context
context = record { held = ""; given = "" }
