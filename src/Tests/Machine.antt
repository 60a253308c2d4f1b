-- ===== src/Tests/Machine.antt =====
-- A machine on the line, and a protobuf of one byte.
use encrypted_transmission_d.Prelude.{ℕ, ◌+◌, true, none, some, List, [], ◌∷◌, pos}
use encrypted_transmission_d.Packet.{Header, body_not_set, result_key_invalid, cmd_key_check_req}
use encrypted_transmission_d.Codec.{
  Protobuf, ResponsePacket, key_op_resp, new_response, new_request,
}
use encrypted_transmission_d.Outside.{Outside}
use encrypted_transmission_d.Tests.Engine.{Mysql, outside}
use encrypted_transmission_d.Tests.Wire.{Line}

abbrev pub header : Header
header = record {
  message_id = "alice_1_1";
  command = cmd_key_check_req;
  sender_id = "alice";
  receiver_id = "server";
  timestamp = pos 1000;
}

-- A machine on the line.
abbrev pub machine : Outside Mysql Line
machine = record {
  query = outside.query;
  time = λ h. (1000, h);
  micros = λ h. (h.clock, record h { clock = h.clock + 1 });
  local_time = λ h. ("2026-01-01 00:00:00", h);
  make_time = outside.make_time;
  attach = λ h. (true, h);
  rand_bytes = λ n h. ("0123456789abcdef", h);
  base64_encode = λ s. s;
  base64_decode = λ s. s;
  gcm_encrypt = λ key text h. (
    record { success = true; ciphertext = text; nonce = "nonce"; tag = "tag"; error_msg = "" },
    h,
  );
  gcm_decrypt = λ key nonce text tag. record { success = true; plaintext = text; error_msg = "" };
  write_file = λ file text h. h;
  rsa_verify = λ file digest sign h. (true, h);
  rsa_public_encrypt = λ file text h. (text, h);
  sha256 = λ text. text;
  parse_request = λ text. record { header = none; body = body_not_set };
}

-- A protobuf of one byte for each body that the server answers here.
abbrev pub parse_byte : List ℕ → ResponsePacket
parse_byte [] = new_response
parse_byte (b ∷ bytes) = record {
  header = some header;
  body = key_op_resp result_key_invalid "" (pos 7) "secret";
}

abbrev pub bytes : Protobuf (List ℕ)
bytes = record {
  serialize_request = λ r. 1 ∷ [];
  parse_request = λ b. new_request;
  serialize_response = λ r. 2 ∷ [];
  parse_response = parse_byte;
}
