-- ===== src/QueryService/Validation.antt =====
-- MessageQueryService.cpp: validateQueryRequest and validateQueryListRequest.
use encrypted_transmission_d.Prelude.{
  String, not, Option, none, some, ℤ, pos, is_positive, exceeds, is_empty, if◌then◌else◌,
}
use encrypted_transmission_d.Packet.{RequestBody, query_msg_req, query_msg_list_req, RequestPacket}

-- The fields of the request, as protobuf reads them of another body.
abbrev pub queried_id : RequestBody → String
queried_id (query_msg_req id) = id
queried_id _ = ""

abbrev pub queried_sender : RequestBody → String
queried_sender (query_msg_list_req sender limit) = sender
queried_sender _ = ""

abbrev pub queried_limit : RequestBody → ℤ
queried_limit (query_msg_list_req sender limit) = limit
queried_limit _ = pos 0

unfoldable pub validate_query_body : RequestBody → Option String
validate_query_body (query_msg_req id) =
    if is_empty id then some "server_message_id is empty" else none
validate_query_body _ = some "query_msg_req is empty"

-- `none` is a valid request.
unfoldable pub validate_query_request : RequestPacket → Option String
validate_query_request packet = elim packet.header [
  | none ↦ some "header is empty"
  | some header ↦
      if is_empty header.sender_id
      then some "header sender_id is empty"
      else validate_query_body packet.body
]

unfoldable pub validate_list_fields : String → String → ℤ → Option String
validate_list_fields requester sender limit =
    if is_empty requester
    then some "header sender_id is empty"
    else if is_empty sender
    then some "query sender_id is empty"
    else if not (is_positive limit)
    then some "limit must be greater than 0"
    else if exceeds limit 100
    then some "limit must not exceed 100"
    else none

unfoldable pub validate_list_body : String → RequestBody → Option String
validate_list_body requester (query_msg_list_req sender limit) =
    validate_list_fields requester sender limit
validate_list_body requester _ = some "query_msg_list_req is empty"

unfoldable pub validate_query_list_request : RequestPacket → Option String
validate_query_list_request packet = elim packet.header [
  | none ↦ some "header is empty"
  | some header ↦ validate_list_body header.sender_id packet.body
]
