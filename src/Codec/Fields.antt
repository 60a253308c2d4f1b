-- ===== src/Codec/Fields.antt =====
-- V2RequestCodec.cpp and V2RespondCodec.cpp: the packet that initMessage makes of a struct has all its fields.
use encrypted_transmission_d.Prelude.{List, [], ◌∷◌, map, ap, Option, none, some, ◌≡◌, refl}
use encrypted_transmission_d.Codec.Casts.{
  command_of-command_number, code_of-code_number, msg_type_of-msg_type_number,
  delivery_of-delivery_number,
}
use encrypted_transmission_d.Packet.{
  EncryptedMessage, MessageSummary, Header, RequestPacket, RequestBody, send_msg_req, query_msg_req,
  query_msg_list_req, key_agree_req, key_check_req, key_logout_req,
}
use encrypted_transmission_d.KeyService.{
  Response, send_response, query_response, list_response, key_response,
}
use encrypted_transmission_d.Codec.{
  RequestInfo, send_message_info, query_message_info, query_message_list_info, key_agreement_info,
  key_check_info, key_logout_info, ResponseBody, send_msg_resp, query_msg_resp, query_msg_list_resp,
  key_op_resp, set_header, set_message, set_summary, init_request, init_response, new_response,
}

-- The struct that a request packet was made from: what the server's handlers read of it.
abbrev pub info_of : Option Header → RequestBody → Option RequestInfo
info_of (some header) (send_msg_req (some message)) = some (send_message_info header message)
info_of (some header) (query_msg_req id) = some (query_message_info header id)
info_of (some header) (query_msg_list_req sender limit) =
    some (query_message_list_info header sender limit)
info_of (some header) (key_agree_req public_key sign) =
    some (key_agreement_info header public_key sign)
info_of (some header) (key_check_req key) = some (key_check_info header key)
info_of (some header) (key_logout_req key) = some (key_logout_info header key)
info_of _ _ = none

-- The struct that a response packet was made from: what the client reads of it.
abbrev pub response_of : Option Header → ResponseBody → Option Response
response_of (some h) (send_msg_resp c m id time status) = some (
    send_response (record {
      header = h;
      code = c;
      message = m;
      server_message_id = id;
      server_time = time;
      delivery_status = status;
    }))
response_of (some h) (query_msg_resp c m id sender receiver key type time status) = some (
    query_response (record {
      header = h;
      code = c;
      message = m;
      server_message_id = id;
      sender_id = sender;
      receiver_id = receiver;
      key_id = key;
      msg_type = type;
      send_time = time;
      status = status;
    }))
response_of (some h) (query_msg_list_resp c m messages) =
    some (list_response (record { header = h; code = c; message = m; messages = messages }))
response_of (some h) (key_op_resp c m key secret) =
    some
      (key_response (record { header = h; code = c; message = m; key_id = key; key_data = secret }))
response_of _ _ = none

set_header_lem : (header : Header) → set_header header ≡ header
unfolding set_header
set_header_lem header = rw (command_of-command_number header.command) refl

set_message_lem : (message : EncryptedMessage) → set_message message ≡ message
unfolding set_message
set_message_lem message = rw (msg_type_of-msg_type_number message.msg_type) refl

map-set_summary : (items : List MessageSummary) → map set_summary items ≡ items
unfolding set_summary
map-set_summary [] = refl
map-set_summary (item ∷ items) = ap (λ rest. item ∷ rest) (map-set_summary items)

-- The packet of a request has every field of its struct, whatever it held before.
pub init_request_lem :
    (info : RequestInfo) (packet : RequestPacket)
    → info_of (init_request info packet).header (init_request info packet).body ≡ some info
unfolding init_request
init_request_lem (send_message_info header message) packet =
    rw (set_header_lem header, set_message_lem message) refl
init_request_lem (query_message_info header id) packet = rw (set_header_lem header) refl
init_request_lem (query_message_list_info header sender limit) packet =
    rw (set_header_lem header) refl
init_request_lem (key_agreement_info header public_key sign) packet =
    rw (set_header_lem header) refl
init_request_lem (key_check_info header key) packet = rw (set_header_lem header) refl
init_request_lem (key_logout_info header key) packet = rw (set_header_lem header) refl

-- The packet of a response has every field of its struct, in a codec that held no list.
pub init_response_lem :
    (info : Response)
    → response_of (init_response info new_response).header (init_response info new_response).body
      ≡ some info
unfolding init_response
init_response_lem (send_response info) =
    rw
      (
        set_header_lem info.header,
        code_of-code_number info.code,
        delivery_of-delivery_number info.delivery_status,
      )
      refl
init_response_lem (query_response info) =
    rw (set_header_lem info.header, code_of-code_number info.code) refl
init_response_lem (list_response info) =
    rw (set_header_lem info.header, code_of-code_number info.code, map-set_summary info.messages)
      refl
init_response_lem (key_response info) =
    rw (set_header_lem info.header, code_of-code_number info.code) refl
