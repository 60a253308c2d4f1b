-- ===== src/Client/Sending.antt =====
-- MessageClient.cpp, sendTextMessage: it wants an active key, and reports what the server answered.
use encrypted_transmission_d.Prelude.{
  ℕ, suc, ◌%◌, ◌^◌, String, true, Option, none, some, List, pos, ◌≡◌, if◌then◌else◌,
}
use encrypted_transmission_d.Cache.{Node}
use encrypted_transmission_d.Packet.{Header, cmd_send_msg_req, msg_type_text}
use encrypted_transmission_d.Codec.{
  Protobuf, send_message_info, ResponseBody, send_msg_resp, encode_request, decode_response,
}
use encrypted_transmission_d.Outside.{Outside}
use encrypted_transmission_d.Transport.{Network}
use encrypted_transmission_d.Client.Base.{ClientInfo, Process, request_id}
use encrypted_transmission_d.Client.Keys.{is_success}
use encrypted_transmission_d.Client.Messages.{SendMessageResult, EncryptTextResult, encoded_text}
use encrypted_transmission_d.Client.Rules.{Keeps, IsWired}
use encrypted_transmission_d.Client.Following.{node_at, read_state}

-- The ID in a reply to a message that reports success.
abbrev pub accepted_id : ResponseBody → Option String
accepted_id (send_msg_resp code message id time status) = if is_success code then some id else none
accepted_id _ = none

module _ {E H : Type 0} (o : Outside E H) (info : ClientInfo) where
  abbrev pub message_header_at : String → Process H → Header
  message_header_at receiver w = record {
    message_id = request_id o info.client_id (o.micros w.host).0 (suc w.message_sequence % 2 ^ 64);
    command = cmd_send_msg_req;
    sender_id = info.client_id;
    receiver_id = receiver;
    timestamp = pos (o.time (o.micros w.host).1).0;
  }

module _ {E H : Type 0} (o : Outside E H) (p : Protobuf (List ℕ)) (info : ClientInfo) where
  abbrev pub message_request : String → Node → EncryptTextResult → Process H → List ℕ
  message_request receiver node encrypted w = encode_request p (
      send_message_info (message_header_at o info receiver w) (record {
        key_id = node.seckey_id;
        msg_type = msg_type_text;
        ciphertext = encrypted.ciphertext;
        nonce = encrypted.nonce;
        tag = encrypted.tag;
        algorithm = encrypted.algorithm;
      }))

  -- The frame that sendTextMessage sends of a text, with the node's key.
  abbrev pub text_request : String → String → Process H → List ℕ
  text_request receiver plaintext w =
      let gcm =
        o.gcm_encrypt (o.base64_decode (node_at o info w).seckey) plaintext (read_state o w).host in
      message_request receiver (node_at o info w) (encoded_text o gcm.0) (record w { host = gcm.1 })

module _ {E H : Type 0} (o : Outside E H) (p : Protobuf (List ℕ)) (net : Network H)
    (signals : H → ℕ) (wired : IsWired net signals) (info : ClientInfo) where
  -- The result is a failure, or the server's acceptance of the message under the ID that it gave.
  pub record Reports (w : Process H) (r : SendMessageResult) (w' : Process H) : Type 0 where
    pub keeps : Keeps w w'
    pub accepted :
        r.success ≡ true
        → (bytes : List ℕ) × (accepted_id (decode_response p bytes).body ≡ some r.server_message_id)
