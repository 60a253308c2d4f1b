-- ===== src/QueryService.antt =====
-- MessageQueryService.cpp: the requests to look up one message, or the last ones of a sender.
pub mod Validation
pub mod Reads
pub mod Access
pub mod Listing
use encrypted_transmission_d.Prelude.{
  String, suc, Bool, not, ◌&&◌, Option, none, some, List, [], length, map, ℤ, pos, negsuc,
  is_positive, exceeds, int_eq, is_empty, count_to_string, ◌<>◌, ◌==◌, if◌then◌else◌,
}
use encrypted_transmission_d.Packet.{
  Header, CommandType, RequestBody, query_msg_req, query_msg_list_req, RequestPacket, ResultCode,
  result_success, result_failed, result_invalid_request, result_msg_not_found, QueryMessageResponse,
  MessageSummary, QueryMessageListResponse, cmd_query_msg_resp, cmd_query_msg_list_resp,
}
use encrypted_transmission_d.Outside.{Outside, Server, pure, ◌>>=◌, on_host}
use encrypted_transmission_d.MessageStore.{
  MessageQueryResult, MessageSummaryInfo, query_message_by_id, query_recent_messages_by_sender,
  log_action,
}
use encrypted_transmission_d.MessageService.Keys.{header_of}
use encrypted_transmission_d.QueryService.Validation.{
  queried_id, queried_sender, queried_limit, validate_query_request, validate_query_list_request,
}

-- The responses before the outcome is known.
abbrev pub pending_query : Header → QueryMessageResponse
pending_query header = record {
  header = header;
  code = result_failed;
  message = "query message failed";
  server_message_id = "";
  sender_id = "";
  receiver_id = "";
  key_id = pos 0;
  msg_type = "";
  send_time = pos 0;
  status = pos 0;
}

abbrev pub pending_list : Header → QueryMessageListResponse
pending_list header = record {
  header = header;
  code = result_failed;
  message = "query message list failed";
  messages = [];
}

-- The test of who may read a message.
abbrev pub is_party : String → MessageQueryResult → Bool
is_party requester found =
    not (not (requester == found.sender_id) && not (requester == found.receiver_id))

module _ {E H : Type 0} (o : Outside E H) where
  -- -1 of mktime, and a text that does not parse, become 0.
  unfoldable pub parse_date_time_to_timestamp : String → ℤ
  parse_date_time_to_timestamp text = if is_empty text then pos 0 else elim (o.make_time text) [
    | none ↦ pos 0
    | some timestamp ↦ if int_eq timestamp (negsuc 0) then pos 0 else timestamp
  ]

  unfoldable pub summary_of : MessageSummaryInfo → MessageSummary
  summary_of item = record {
    server_message_id = item.msg_id;
    sender_id = item.sender_id;
    receiver_id = item.receiver_id;
    key_id = item.key_id;
    msg_type = item.msg_type;
    send_time = parse_date_time_to_timestamp item.send_time;
    status = item.status;
  }

  module _ (server_id : String) where
    -- buildResponseHeader
    unfoldable pub build_query_header : RequestPacket → CommandType → Server E H Header
    build_query_header packet command = do
      seconds ← on_host o.time
      pure (record {
        message_id = (header_of packet).message_id;
        command = command;
        sender_id = server_id;
        receiver_id = (header_of packet).sender_id;
        timestamp = pos seconds;
      })

    -- generateQueryAuditId, with the counter of its `static`.
    unfoldable pub generate_query_audit_id : Server E H String
    generate_query_audit_id = do
      micros ← on_host o.micros
      λ w. (
        server_id
            <> "_audit_"
            <> count_to_string micros
            <> "_"
            <> count_to_string (suc w.query_sequence),
        record w { query_sequence = suc w.query_sequence },
      )

    unfoldable pub query_audit : String → String → String → ℤ → String → Server E H Bool
    query_audit requester action target result detail = do
      id ← generate_query_audit_id
      log_action o id requester action target result detail

    -- Every answer ends with its audit entry.
    unfoldable pub answer_query :
        QueryMessageResponse → String → String → ℤ → String → Server E H QueryMessageResponse
    answer_query response requester target result detail = do
      _ ← query_audit requester "MSG_QUERY" target result detail
      pure response

    unfoldable pub show_message :
        QueryMessageResponse
        → String
        → String
        → MessageQueryResult
        → Server E H QueryMessageResponse
    show_message response requester id found =
        if is_party requester found
        then answer_query
            (record response {
              code = result_success;
              message = "query message success";
              server_message_id = found.msg_id;
              sender_id = found.sender_id;
              receiver_id = found.receiver_id;
              key_id = found.key_id;
              msg_type = found.msg_type;
              send_time = parse_date_time_to_timestamp found.send_time;
              status = found.status;
            })
            requester id (pos 1) "query message success"
        else answer_query
            (record response {
              code = result_invalid_request;
              message = "permission denied";
              server_message_id = id;
            })
            requester id (pos 0) "permission denied"

    unfoldable pub report_found :
        QueryMessageResponse
        → String
        → String
        → Option MessageQueryResult
        → Server E H QueryMessageResponse
    report_found response requester id none =
        answer_query
          (record response {
            code = result_msg_not_found;
            message = "message not found";
            server_message_id = id;
          })
          requester id (pos 0) "message not found"
    report_found response requester id (some found) = show_message response requester id found

    unfoldable pub query_valid :
        QueryMessageResponse → String → String → Server E H QueryMessageResponse
    query_valid response requester id = do
      found ← query_message_by_id o id
      report_found response requester id found

    unfoldable pub validate_and_query :
        QueryMessageResponse → RequestPacket → Server E H QueryMessageResponse
    validate_and_query response packet = elim (validate_query_request packet) [
      | none ↦ query_valid response (header_of packet).sender_id (queried_id packet.body)
      | some error ↦
          answer_query (record response { code = result_invalid_request; message = error })
            (header_of packet).sender_id "" (pos 0) ("invalid query request: " <> error)
    ]

    unfoldable pub handle_query_message : RequestPacket → Server E H QueryMessageResponse
    handle_query_message packet = do
      header ← build_query_header packet cmd_query_msg_resp
      validate_and_query (pending_query header) packet

    unfoldable pub answer_list :
        QueryMessageListResponse
        → String
        → String
        → ℤ
        → String
        → Server E H QueryMessageListResponse
    answer_list response requester target result detail = do
      _ ← query_audit requester "MSG_LIST_QUERY" target result detail
      pure response

    unfoldable pub report_list :
        QueryMessageListResponse
        → String
        → String
        → Option (List MessageSummaryInfo)
        → Server E H QueryMessageListResponse
    report_list response requester sender none =
        answer_list
          (record response { code = result_failed; message = "query recent messages failed" })
          requester sender (pos 0) "query recent messages failed"
    report_list response requester sender (some stored) =
        answer_list
          (record response {
            code = result_success;
            message = "query message list success";
            messages = map summary_of stored;
          })
          requester sender (pos 1)
          ("query message list success, count = " <> count_to_string (length stored))

    unfoldable pub list_valid :
        QueryMessageListResponse → String → String → ℤ → Server E H QueryMessageListResponse
    list_valid response requester sender limit =
        if not (sender == requester)
        then answer_list
            (record response { code = result_invalid_request; message = "permission denied" })
            requester sender (pos 0) "permission denied"
        else (do
          stored ← query_recent_messages_by_sender o sender limit
          report_list response requester sender stored)

    unfoldable pub validate_and_list :
        QueryMessageListResponse → RequestPacket → Server E H QueryMessageListResponse
    validate_and_list response packet = elim (validate_query_list_request packet) [
      | none ↦
          list_valid response (header_of packet).sender_id (queried_sender packet.body)
            (queried_limit packet.body)
      | some error ↦
          answer_list (record response { code = result_invalid_request; message = error })
            (header_of packet).sender_id "" (pos 0) ("invalid query list request: " <> error)
    ]

    unfoldable pub handle_query_message_list : RequestPacket → Server E H QueryMessageListResponse
    handle_query_message_list packet = do
      header ← build_query_header packet cmd_query_msg_list_resp
      validate_and_list (pending_list header) packet
