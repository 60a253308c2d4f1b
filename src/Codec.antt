-- ===== src/Codec.antt =====
-- V2RequestCodec.cpp and V2RespondCodec.cpp: between the structs of the services and the packets of
-- MessageV2.proto. What protobuf generates for the packets, their serialisation, is a parameter.
pub mod Casts
pub mod Fields
use encrypted_transmission_d.Prelude.{map, ℕ, String, Option, none, some, List, [], ◌++◌, ℤ, ◌≡◌}
use encrypted_transmission_d.Packet.{
  Header, EncryptedMessage, RequestPacket, RequestBody, body_not_set, send_msg_req, query_msg_req,
  query_msg_list_req, key_agree_req, key_check_req, key_logout_req, ResultCode, DeliveryStatus,
  MessageSummary, SendMessageResponse, QueryMessageResponse, QueryMessageListResponse,
  KeyOperationResponse,
}
use encrypted_transmission_d.Codec.Casts.{
  command_number, command_of, code_number, code_of, msg_type_number, msg_type_of, delivery_number,
  delivery_of,
}
use encrypted_transmission_d.KeyService.{
  Response, send_response, query_response, list_response, key_response,
}

-- The structs that initMessage of V2RequestCodec takes.
pub data RequestInfo : Type 0 where
  send_message_info : Header → EncryptedMessage → RequestInfo
  query_message_info : Header → String → RequestInfo
  query_message_list_info : Header → String → ℤ → RequestInfo
  key_agreement_info : Header → String → String → RequestInfo
  key_check_info : Header → ℤ → RequestInfo
  key_logout_info : Header → ℤ → RequestInfo

-- ResponsePacket: its `oneof` is one constructor for each body, and `no_body`.
pub data ResponseBody : Type 0 where
  no_body : ResponseBody
  send_msg_resp : ResultCode → String → String → ℤ → DeliveryStatus → ResponseBody
  query_msg_resp :
      ResultCode → String → String → String → String → ℤ → String → ℤ → ℤ → ResponseBody
  query_msg_list_resp : ResultCode → String → List MessageSummary → ResponseBody
  key_op_resp : ResultCode → String → ℤ → String → ResponseBody

pub record ResponsePacket : Type 0 where
  pub header : Option Header
  pub body : ResponseBody

abbrev pub new_request : RequestPacket
new_request = record { header = none; body = body_not_set }

abbrev pub new_response : ResponsePacket
new_response = record { header = none; body = no_body }

-- The calls of `set_` on the header, on the message and on a summary of a packet.
unfoldable pub set_header : Header → Header
set_header info = record {
  message_id = info.message_id;
  command = command_of (command_number info.command);
  sender_id = info.sender_id;
  receiver_id = info.receiver_id;
  timestamp = info.timestamp;
}

unfoldable pub set_message : EncryptedMessage → EncryptedMessage
set_message info = record {
  key_id = info.key_id;
  msg_type = msg_type_of (msg_type_number info.msg_type);
  ciphertext = info.ciphertext;
  nonce = info.nonce;
  tag = info.tag;
  algorithm = info.algorithm;
}

unfoldable pub set_summary : MessageSummary → MessageSummary
set_summary item = record {
  server_message_id = item.server_message_id;
  sender_id = item.sender_id;
  receiver_id = item.receiver_id;
  key_id = item.key_id;
  msg_type = item.msg_type;
  send_time = item.send_time;
  status = item.status;
}

-- V2RequestCodec::initMessage, of its six structs, on the codec's packet: it sets every field of the
-- header and of the body.
unfoldable pub init_request : RequestInfo → RequestPacket → RequestPacket
init_request (send_message_info header message) packet = record {
  header = some (set_header header);
  body = send_msg_req (some (set_message message));
}
init_request (query_message_info header id) packet = record {
  header = some (set_header header);
  body = query_msg_req id;
}
init_request (query_message_list_info header sender limit) packet = record {
  header = some (set_header header);
  body = query_msg_list_req sender limit;
}
init_request (key_agreement_info header public_key sign) packet = record {
  header = some (set_header header);
  body = key_agree_req public_key sign;
}
init_request (key_check_info header key) packet = record {
  header = some (set_header header);
  body = key_check_req key;
}
init_request (key_logout_info header key) packet = record {
  header = some (set_header header);
  body = key_logout_req key;
}

-- The summaries that the codec's packet holds: `add_messages` adds to them.
unfoldable pub held_messages : ResponseBody → List MessageSummary
held_messages (query_msg_list_resp code message messages) = messages
held_messages _ = []

-- V2RespondCodec::initMessage, of its four structs.
unfoldable pub init_response : Response → ResponsePacket → ResponsePacket
unfolding held_messages
init_response (send_response info) packet = record {
  header = some (set_header info.header);
  body =
      send_msg_resp (code_of (code_number info.code)) info.message info.server_message_id
        info.server_time (delivery_of (delivery_number info.delivery_status));
}
init_response (query_response info) packet = record {
  header = some (set_header info.header);
  body =
      query_msg_resp (code_of (code_number info.code)) info.message info.server_message_id
        info.sender_id info.receiver_id info.key_id info.msg_type info.send_time info.status;
}
init_response (list_response info) packet = record {
  header = some (set_header info.header);
  body =
      query_msg_list_resp (code_of (code_number info.code)) info.message
        (held_messages packet.body ++ map set_summary info.messages);
}
init_response (key_response info) packet = record {
  header = some (set_header info.header);
  body = key_op_resp (code_of (code_number info.code)) info.message info.key_id info.key_data;
}

-- SerializeToString and ParseFromString of the two packets, over the bytes `B`; the packet holds what was parsed before
-- an error.
pub record Protobuf (B : Type 0) : Type 0 where
  pub serialize_request : RequestPacket → B
  pub parse_request : B → RequestPacket
  pub serialize_response : ResponsePacket → B
  pub parse_response : B → ResponsePacket

module _ {B : Type 0} (p : Protobuf B) where
  -- A codec over a struct, and its encodeMsg.
  unfoldable pub encode_request : RequestInfo → B
  encode_request info = p.serialize_request (init_request info new_request)

  unfoldable pub encode_response : Response → B
  encode_response info = p.serialize_response (init_response info new_response)

  -- A codec over bytes, and its decodeMsg.
  unfoldable pub decode_request : B → RequestPacket
  decode_request bytes = p.parse_request bytes

  unfoldable pub decode_response : B → ResponsePacket
  decode_response bytes = p.parse_response bytes
