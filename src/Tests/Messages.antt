-- ===== src/Tests/Messages.antt =====
-- Runs of the theorems on the messages: alice sends to bob, and bob looks the message up.
use encrypted_transmission_d.Prelude.{
  ℕ, String, true, false, none, some, [], ◌∷◌, ℤ, pos, ◌≡◌, refl, ◌⊎◌,
}
use encrypted_transmission_d.Cache.{Node, shm_read}
use encrypted_transmission_d.Database.{Database, KeyRow, MessageLogRecord}
use encrypted_transmission_d.Packet.{
  query_msg_list_req, key_check_req, RequestPacket, send_msg_req, query_msg_req, msg_type_text,
  cmd_send_msg_req, cmd_query_msg_req,
}
use encrypted_transmission_d.Outside.{World, connected}
use encrypted_transmission_d.MessageService.Keys.{header_of, get_active_key}
use encrypted_transmission_d.MessageService.Cipher.{decrypt_message, encrypt_message}
use encrypted_transmission_d.MessageService.Handler.{handle_send_message}
use encrypted_transmission_d.MessageService.ActiveKey.{IsUsable, get_active_key_confirms}
use encrypted_transmission_d.MessageService.Reencryption.{decrypt_message-encrypt_message}
use encrypted_transmission_d.MessageService.Forwarding.{Outcome, handle_send_message-Forwards}
use encrypted_transmission_d.QueryService.Listing.{Listed, handle_query_message_list-Listed}
use encrypted_transmission_d.QueryService.{handle_query_message_list, handle_query_message}
use encrypted_transmission_d.QueryService.Access.{Reported, handle_query_message-Reported}
use encrypted_transmission_d.KeyService.{sec_key_check}
use encrypted_transmission_d.KeyService.Checked.{Decided, sec_key_check-Decided}
use encrypted_transmission_d.Tests.Engine.{Mysql, exact, view, outside, lawful, sound}

abbrev key_of : String → ℤ → KeyRow
key_of client key = record {
  client_id = client;
  server_id = "server";
  key_id = key;
  expire_time = 90000;
  state = pos 1;
  seckey = "a2V5";
  rotated_from = none;
}

abbrev slot_of : String → ℤ → Node
slot_of client key = record {
  status = pos 1;
  seckey_id = key;
  client_id = client;
  server_id = "server";
  seckey = "a2V5";
}

abbrev stored : MessageLogRecord
stored = record {
  msg_id = "server_msg_1_1";
  sender_id = "alice";
  receiver_id = "bob";
  sender_key_id = pos 7;
  receiver_key_id = pos 8;
  msg_type = "text";
  sender_ciphertext = "hello";
  sender_nonce = "nonce";
  sender_tag = "tag";
  receiver_ciphertext = "hello";
  receiver_nonce = "nonce";
  receiver_tag = "tag";
  algorithm = "AES-128-GCM";
  send_time = "2026-01-01 00:00:00";
  status = pos 1;
}

abbrev tables : Database
tables = record {
  key_sn = some (pos 9);
  keys = key_of "alice" (pos 7) ∷ key_of "bob" (pos 8) ∷ [];
  messages = stored ∷ [];
  audits = [];
}

abbrev world : World Mysql ℕ
world = record {
  engine = record { db = tables; saved = tables; is_open = false; clock = 1000 };
  host = 0;
  slots = slot_of "alice" (pos 7) ∷ slot_of "bob" (pos 8) ∷ [];
  db = connected;
  sequence = 0;
  query_sequence = 0;
}

abbrev message : RequestPacket
message = record {
  header = some (record {
    message_id = "m1";
    command = cmd_send_msg_req;
    sender_id = "alice";
    receiver_id = "bob";
    timestamp = pos 1000;
  });
  body = send_msg_req (
      some (record {
        key_id = pos 7;
        msg_type = msg_type_text;
        ciphertext = "hello";
        nonce = "nonce";
        tag = "tag";
        algorithm = "AES-128-GCM";
      }));
}

abbrev question : RequestPacket
question = record {
  header = some (record {
    message_id = "m2";
    command = cmd_query_msg_req;
    sender_id = "bob";
    receiver_id = "server";
    timestamp = pos 1000;
  });
  body = query_msg_req "server_msg_1_1";
}

get_active_key_confirms_example :
    ((get_active_key outside "alice" "server" (pos 7) world).0.valid ≡ false)
    ⊎ IsUsable outside exact view lawful "alice" "server"
        (pos 7)
        (shm_read true "alice" "server" world.slots)
        world
        (get_active_key outside "alice" "server" (pos 7) world).0
        (get_active_key outside "alice" "server" (pos 7) world).1
get_active_key_confirms_example =
    get_active_key_confirms outside exact view lawful "alice" "server" (pos 7) world refl

encrypted : (encrypt_message outside "a2V5" "hello" world).0.success ≡ true
unfolding encrypt_message
encrypted = refl

decrypt_message-encrypt_message_example :
    let enc = (encrypt_message outside "a2V5" "hello" world).0 in
    decrypt_message outside "a2V5" enc.ciphertext enc.nonce enc.tag enc.algorithm
    ≡ record { success = true; plaintext = "hello"; error_msg = "" }
decrypt_message-encrypt_message_example =
    decrypt_message-encrypt_message outside sound "a2V5" "hello" world encrypted

handle_send_message-Forwards_example :
    Outcome outside exact view lawful sound "server" world message world
      (handle_send_message outside "server" message world).0
      (handle_send_message outside "server" message world).1
handle_send_message-Forwards_example =
    handle_send_message-Forwards outside exact view lawful sound "server" world message refl

handle_query_message-Reported_example :
    Reported outside exact view lawful "server" "bob" "server_msg_1_1"
      (stored ∷ [])
      world
      (handle_query_message outside "server" question world).0
      (handle_query_message outside "server" question world).1
handle_query_message-Reported_example =
    handle_query_message-Reported outside exact view lawful "server" question world refl

abbrev check : RequestPacket
check = record {
  header = some (record (header_of message) { receiver_id = "server" });
  body = key_check_req (pos 7);
}

sec_key_check-Decided_example :
    Decided outside exact view lawful "server" check
      (header_of check)
      (pos 7)
      world
      (sec_key_check outside "server" check world).0
      (sec_key_check outside "server" check world).1
sec_key_check-Decided_example =
    sec_key_check-Decided outside exact view lawful "server" check (header_of check) (pos 7) world
      refl refl refl

abbrev listing : RequestPacket
listing = record { header = some (header_of message); body = query_msg_list_req "alice" (pos 10) }

handle_query_message_list-Listed_example :
    Listed outside "server" listing
      (handle_query_message_list outside "server" listing world).0
      (handle_query_message_list outside "server" listing world).1
handle_query_message_list-Listed_example =
    handle_query_message_list-Listed outside "server" listing world
