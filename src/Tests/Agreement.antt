-- ===== src/Tests/Agreement.antt =====
-- A run of the theorem on the agreement: bob asks for a key.
use encrypted_transmission_d.Prelude.{ℕ, false, none, some, [], ◌∷◌, pos, refl}
use encrypted_transmission_d.Cache.{zero_node}
use encrypted_transmission_d.Packet.{Header, RequestPacket, key_agree_req, cmd_key_agree_req}
use encrypted_transmission_d.Outside.{World, connected}
use encrypted_transmission_d.KeyService.{seckey_agree}
use encrypted_transmission_d.KeyService.Agreed.{Agreed, seckey_agree-Agreed}
use encrypted_transmission_d.Tests.Engine.{Mysql, exact, view, outside, lawful}

abbrev world : World Mysql ℕ
world = record {
  engine = record {
    db = record { key_sn = some (pos 9); keys = []; messages = []; audits = [] };
    saved = record { key_sn = none; keys = []; messages = []; audits = [] };
    is_open = false;
    clock = 1000;
  };
  host = 0;
  slots = zero_node ∷ [];
  db = connected;
  sequence = 0;
  query_sequence = 0;
}

abbrev bob : Header
bob = record {
  message_id = "m3";
  command = cmd_key_agree_req;
  sender_id = "bob";
  receiver_id = "server";
  timestamp = pos 1000;
}

abbrev agreement : RequestPacket
agreement = record { header = some bob; body = key_agree_req "key" "sign" }

seckey_agree-Agreed_example :
    Agreed outside exact view bob "key" "sign" world
      (seckey_agree outside "server" agreement world).0
      (seckey_agree outside "server" agreement world).1
seckey_agree-Agreed_example =
    seckey_agree-Agreed outside exact view lawful "server" agreement bob "key" "sign" world refl
      refl refl
