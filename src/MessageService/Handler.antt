-- ===== src/MessageService/Handler.antt =====
-- MessageService.cpp: `handleSendMessage`, one function for each of its steps.
use encrypted_transmission_d.Prelude.{
  String, Bool, not, none, some, ℤ, pos, ◌||◌, is_empty, to_string, ◌<>◌, if◌then◌else◌,
}
use encrypted_transmission_d.Cache.{Node}
use encrypted_transmission_d.Packet.{
  Header, EncryptedMessage, RequestPacket, SendMessageResponse, ResultCode, result_success,
  result_failed, result_key_not_found, result_key_invalid, result_decrypt_failed,
  result_invalid_request, delivery_accepted, delivery_rejected, cmd_send_msg_resp,
}
use encrypted_transmission_d.Database.{MessageLogRecord}
use encrypted_transmission_d.Outside.{Outside, Server, pure, ◌>>=◌, on_host}
use encrypted_transmission_d.MessageStore.{repository_insert, log_action_at}
use encrypted_transmission_d.MessageService.Keys.{
  header_of, message_of, validate_request, ActiveKeyResult, cache_read, get_active_key,
  generate_server_message_id, generate_audit_log_id, time_now, build_response_header,
}
use encrypted_transmission_d.MessageService.Cipher.{
  EncryptMessageResult, decrypt_message, encrypt_message,
}

-- The node found in the cache holds no key.
abbrev pub is_unnamed : Node → Bool
is_unnamed node = is_empty node.client_id || is_empty node.server_id

-- The record that is stored: the sender's ciphertext, and the receiver's.
abbrev pub message_record :
    String → Header → EncryptedMessage → ℤ → EncryptMessageResult → String → MessageLogRecord
message_record id header msg receiver_key enc time = record {
  msg_id = id;
  sender_id = header.sender_id;
  receiver_id = header.receiver_id;
  sender_key_id = msg.key_id;
  receiver_key_id = receiver_key;
  msg_type = "text";
  sender_ciphertext = msg.ciphertext;
  sender_nonce = msg.nonce;
  sender_tag = msg.tag;
  receiver_ciphertext = enc.ciphertext;
  receiver_nonce = enc.nonce;
  receiver_tag = enc.tag;
  algorithm = enc.algorithm;
  send_time = time;
  status = pos 1;
}

module _ {E H : Type 0} (o : Outside E H) (server_id : String) where
  -- An audit entry of the service, with a new ID and the time.
  unfoldable pub audit : String → String → String → ℤ → String → Server E H Bool
  audit sender action target result detail = do
    id ← generate_audit_log_id o server_id
    time ← on_host o.local_time
    log_action_at o id sender action target result detail time

  -- The end of every step that refuses: the code, the message and an audit entry of a failure.
  unfoldable pub refuse :
      SendMessageResponse
      → ResultCode
      → String
      → String
      → String
      → String
      → String
      → Server E H SendMessageResponse
  refuse resp code message sender action target detail = do
    _ ← audit sender action target (pos 0) detail
    pure (record resp { code = code; message = message })

  -- Steps 10 and 11.
  unfoldable pub report_sent :
      SendMessageResponse → Header → String → Server E H SendMessageResponse
  report_sent resp header id = do
    _ ←
        audit header.sender_id "MSG_SEND" id (pos 1)
          "message send success and re-encrypted for receiver"
    now ← time_now o
    pure (record resp {
      code = result_success;
      message = "消息发送成功";
      server_message_id = id;
      server_time = now;
      delivery_status = delivery_accepted;
    })

  -- Steps 7, 8 and 9.
  unfoldable pub store_message :
      SendMessageResponse
      → Header
      → EncryptedMessage
      → ℤ
      → EncryptMessageResult
      → Server E H SendMessageResponse
  store_message resp header msg receiver_key enc = do
    id ← generate_server_message_id o server_id
    time ← on_host o.local_time
    stored ← repository_insert o (message_record id header msg receiver_key enc time)
    if stored
        then report_sent resp header id
        else refuse resp result_failed "insert message_log failed" header.sender_id "MSG_STORE" id
            "insert message_log failed"

  -- Step 6.
  unfoldable pub reencrypt :
      SendMessageResponse
      → Header
      → EncryptedMessage
      → String
      → ActiveKeyResult
      → Server E H SendMessageResponse
  reencrypt resp header msg plaintext receiver_key = do
    enc ← encrypt_message o receiver_key.base64_key plaintext
    if EncryptMessageResult.success enc
        then store_message resp header msg receiver_key.key_id enc
        else refuse resp result_failed ("encrypt message for receiver failed: " <> enc.error_msg)
            header.sender_id "MSG_DELIVER" header.receiver_id
            ("encrypt for receiver failed: " <> enc.error_msg)

  -- The test of the receiver's key.
  unfoldable pub with_receiver_key :
      SendMessageResponse
      → Header
      → EncryptedMessage
      → String
      → ActiveKeyResult
      → Server E H SendMessageResponse
  with_receiver_key resp header msg plaintext key =
      if not key.found || not key.valid
      then refuse resp (if key.found then result_key_invalid else result_key_not_found)
          ("receiver key unavailable: " <> key.error_msg) header.sender_id "MSG_DELIVER"
          header.receiver_id ("receiver key unavailable: " <> key.error_msg)
      else reencrypt resp header msg plaintext key

  -- Step 5.
  unfoldable pub find_receiver :
      SendMessageResponse → Header → EncryptedMessage → String → Server E H SendMessageResponse
  find_receiver resp header msg plaintext = do
    node ← cache_read o header.receiver_id server_id
    if is_unnamed node
        then refuse resp result_key_not_found
            "receiver key not found, receiver must do key agreement first" header.sender_id
            "MSG_DELIVER" header.receiver_id "receiver key not found"
        else (do
          key ← get_active_key o header.receiver_id server_id node.seckey_id
          with_receiver_key resp header msg plaintext key)

  -- Step 4.
  unfoldable pub with_sender_key :
      SendMessageResponse
      → Header
      → EncryptedMessage
      → ActiveKeyResult
      → Server E H SendMessageResponse
  with_sender_key resp header msg key =
      if not key.found
      then refuse resp result_key_not_found key.error_msg header.sender_id "MSG_SEND"
          (to_string msg.key_id) ("key not found: " <> key.error_msg)
      else if not key.valid
      then refuse resp result_key_invalid key.error_msg header.sender_id "MSG_SEND"
          (to_string msg.key_id) ("key invalid: " <> key.error_msg)
      else (let dec =
            decrypt_message o key.base64_key msg.ciphertext msg.nonce msg.tag msg.algorithm in
          if dec.success
          then find_receiver resp header msg dec.plaintext
          else refuse resp result_decrypt_failed dec.error_msg header.sender_id "MSG_DECRYPT"
              header.message_id ("decrypt failed: " <> dec.error_msg))

  -- Step 3.
  unfoldable pub send_valid :
      SendMessageResponse → Header → EncryptedMessage → Server E H SendMessageResponse
  send_valid resp header msg = do
    key ← get_active_key o header.sender_id server_id msg.key_id
    with_sender_key resp header msg key

  -- Step 2.
  unfoldable pub validate_and_send :
      SendMessageResponse → RequestPacket → Server E H SendMessageResponse
  validate_and_send resp packet = elim (validate_request packet) [
    | some error ↦
        refuse resp result_invalid_request error (header_of packet).sender_id "MSG_SEND" ""
          ("invalid request: " <> error)
    | none ↦ send_valid resp (header_of packet) (message_of packet)
  ]

  -- Step 1, with the response that stands for a failure until the end.
  unfoldable pub handle_send_message : RequestPacket → Server E H SendMessageResponse
  handle_send_message packet = do
    header ← build_response_header o server_id packet cmd_send_msg_resp
    now ← time_now o
    validate_and_send
        (record {
          header = header;
          code = result_failed;
          message = "未知错误";
          server_message_id = "";
          server_time = now;
          delivery_status = delivery_rejected;
        })
        packet
