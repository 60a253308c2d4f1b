-- ===== src/Packet.antt =====
-- MessageV2.proto, and the response structs of V2RequestCodec.h and V2RespondCodec.h. An absent
-- submessage is `none`; the `oneof` is one constructor for each body, and `body_not_set`.
use encrypted_transmission_d.Prelude.{String, Option, List, ℤ}

pub data CommandType : Type 0 where
  cmd_unknown cmd_send_msg_req cmd_send_msg_resp cmd_query_msg_req cmd_query_msg_resp : CommandType
  cmd_query_msg_list_req cmd_query_msg_list_resp cmd_key_agree_req cmd_key_agree_resp : CommandType
  cmd_key_check_req cmd_key_check_resp cmd_key_logout_req cmd_key_logout_resp : CommandType

pub data ResultCode : Type 0 where
  result_unknown result_success result_failed result_key_not_found : ResultCode
  result_key_invalid result_decrypt_failed result_invalid_request : ResultCode
  result_msg_not_found result_key_agree_failed result_key_check_failed : ResultCode
  result_key_logout_failed : ResultCode

pub data MessageType : Type 0 where
  msg_type_unknown msg_type_text : MessageType

pub data DeliveryStatus : Type 0 where
  delivery_unknown delivery_accepted delivery_rejected : DeliveryStatus

-- The header of a packet, and V2HeaderInfo.
pub record Header : Type 0 where
  pub message_id : String
  pub command : CommandType
  pub sender_id : String
  pub receiver_id : String
  pub timestamp : ℤ

pub record EncryptedMessage : Type 0 where
  pub key_id : ℤ
  pub msg_type : MessageType
  pub ciphertext : String
  pub nonce : String
  pub tag : String
  pub algorithm : String

pub data RequestBody : Type 0 where
  body_not_set : RequestBody
  send_msg_req : Option EncryptedMessage → RequestBody
  query_msg_req : String → RequestBody
  query_msg_list_req : String → ℤ → RequestBody
  key_agree_req : String → String → RequestBody
  key_check_req : ℤ → RequestBody
  key_logout_req : ℤ → RequestBody

pub record RequestPacket : Type 0 where
  pub header : Option Header
  pub body : RequestBody

-- V2SendMessageResponseInfo.
pub record SendMessageResponse : Type 0 where
  pub header : Header
  pub code : ResultCode
  pub message : String
  pub server_message_id : String
  pub server_time : ℤ
  pub delivery_status : DeliveryStatus

-- V2QueryMessageResponseInfo.
pub record QueryMessageResponse : Type 0 where
  pub header : Header
  pub code : ResultCode
  pub message : String
  pub server_message_id : String
  pub sender_id : String
  pub receiver_id : String
  pub key_id : ℤ
  pub msg_type : String
  pub send_time : ℤ
  pub status : ℤ

-- V2MessageSummaryInfo.
pub record MessageSummary : Type 0 where
  pub server_message_id : String
  pub sender_id : String
  pub receiver_id : String
  pub key_id : ℤ
  pub msg_type : String
  pub send_time : ℤ
  pub status : ℤ

-- V2QueryMessageListResponseInfo.
pub record QueryMessageListResponse : Type 0 where
  pub header : Header
  pub code : ResultCode
  pub message : String
  pub messages : List MessageSummary

-- V2KeyOperationResponseInfo.
pub record KeyOperationResponse : Type 0 where
  pub header : Header
  pub code : ResultCode
  pub message : String
  pub key_id : ℤ
  pub key_data : String
