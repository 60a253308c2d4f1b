-- ===== src/Tests/Client.antt =====
-- Runs of the theorems on the client: alice's process, and a server that answers what stands on the
-- line.
use encrypted_transmission_d.Prelude.{
  ℕ, true, false, none, some, String, [], ◌∷◌, pos, c_str, ◌≡◌, refl, ◌⊎◌,
}
use encrypted_transmission_d.Cache.{Node, zero_node, shm_read}
use encrypted_transmission_d.Cache.Slots.{is_zero, find_first}
use encrypted_transmission_d.Outside.{World, connected}
use encrypted_transmission_d.Transport.{frame_of}
use encrypted_transmission_d.MessageService.Cipher.{encrypt_message}
use encrypted_transmission_d.Client.Base.{ClientInfo, KeyFiles, Process}
use encrypted_transmission_d.Client.Keys.{
  strncpy, client_node, store_agreed, key_verification, key_logout,
}
use encrypted_transmission_d.Client.Messages.{encrypt_text}
use encrypted_transmission_d.Client.Rules.{Ends, IsWired}
use encrypted_transmission_d.Client.Following.{approves, refuses, Follows}
use encrypted_transmission_d.Client.Verification.{
  checks, logs_out, check_request, logout_request, key_verification-Follows, key_logout-Follows,
}
use encrypted_transmission_d.Client.Agreement.{
  HasIds, public_key_at, agreement_request, keyed, store_agreed_answers,
}
use encrypted_transmission_d.Client.Encryption.{SameCipher, encrypt_text-SameCipher}
use encrypted_transmission_d.Tests.Engine.{Mysql, outside}
use encrypted_transmission_d.Tests.Machine.{machine, bytes}
use encrypted_transmission_d.Tests.Wire.{Line, line, line-IsOutlet}

abbrev files : KeyFiles Line
files = record {
  generate_key_pair = λ h. h;
  read_public_key = λ h. (some "public", h);
  rsa_sign = λ text h. (text, h);
  rsa_private_decrypt = λ text h. (text, h);
}

abbrev info : ClientInfo
info = record { server_id = "server"; client_id = "alice"; ip = "127.0.0.1"; port = 9000 }

abbrev quiet : Line → ℕ
quiet n = 0

wired : IsWired line quiet
wired = record { sent = λ fd n. n.output; outlet = line-IsOutlet }

abbrev own_node : Node
own_node = record {
  status = pos 1;
  seckey_id = pos 7;
  client_id = "alice";
  server_id = "server";
  seckey = "a2V5";
}

-- The server's reply of one byte stands on the line.
abbrev process : Process Line
process = record {
  host = record { clock = 1; input = 0 ∷ 0 ∷ 0 ∷ 1 ∷ 2 ∷ []; output = [] };
  slots = own_node ∷ zero_node ∷ [];
  sequence = 0;
  message_sequence = 0;
  last_server_message_id = "";
}

key_verification-Follows_example :
    Ends
      (frame_of (check_request machine bytes info process) ≡ none)
      (key_verification machine bytes line quiet info process)
      (λ a w'.
        Follows machine bytes line quiet info refuses
          (checks machine info process)
          (check_request machine bytes info process)
          process
          w')
key_verification-Follows_example =
    key_verification-Follows machine bytes line quiet wired info process

key_logout-Follows_example :
    Ends
      (frame_of (logout_request machine bytes info process) ≡ none)
      (key_logout machine bytes line quiet info process)
      (λ a w'.
        Follows machine bytes line quiet info approves
          (logs_out machine info process)
          (logout_request machine bytes info process)
          process
          w')
key_logout-Follows_example = key_logout-Follows machine bytes line quiet wired info process

abbrev AgreementThrows : Type 0
AgreementThrows =
    (public_key : String) × (public_key_at machine bytes files info process ≡ some public_key)
    × (frame_of (
          agreement_request machine bytes files info public_key
            (keyed machine bytes files info process))
        ≡ none)

ids : HasIds info
unfolding strncpy c_str
ids = record { client_fits = refl; server_fits = refl; client_named = refl; server_named = refl }

store_agreed_answers_example :
    Ends ⊥ (store_agreed machine bytes files info (pos 8) "secret" process) (λ b w'.
      ((b ≡ true) × (shm_read true "alice" "server" w'.slots ≡ client_node info (pos 8) "secret"))
      ⊎ ((b ≡ false)
          × (w'.slots ≡ process.slots)
          × (shm_read true "alice" "server" process.slots ≡ zero_node)
          × (find_first is_zero process.slots ≡ none)))
store_agreed_answers_example =
    store_agreed_answers machine bytes files info ids (λ h. refl) (pos 8) "secret" process

abbrev server : World Mysql ℕ
server = record {
  engine = record {
    db = record { key_sn = some (pos 9); keys = []; messages = []; audits = [] };
    saved = record { key_sn = none; keys = []; messages = []; audits = [] };
    is_open = false;
    clock = 1000;
  };
  host = 5;
  slots = [];
  db = connected;
  sequence = 0;
  query_sequence = 0;
}

abbrev sender : Process ℕ
sender = record {
  host = 5;
  slots = [];
  sequence = 0;
  message_sequence = 0;
  last_server_message_id = "";
}

encrypt_text-SameCipher_example : Ends ⊥ (encrypt_text outside "a2V5" "hello" sender) (λ r u'.
    SameCipher r (encrypt_message outside "a2V5" "hello" server).0
    × ((encrypt_message outside "a2V5" "hello" server).1.host ≡ u'.host))
encrypt_text-SameCipher_example =
    encrypt_text-SameCipher outside "a2V5" "hello" sender server refl refl
