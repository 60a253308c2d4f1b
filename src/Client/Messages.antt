-- ===== src/Client/Messages.antt =====
-- MessageClient.cpp: messages sent and asked for. The error texts are the source's.
use encrypted_transmission_d.Prelude.{
  ℕ, suc, String, Bool, true, false, not, Option, none, some, List, ℤ, pos, int_eq, is_positive,
  exceeds, is_empty, ◌<>◌, ◌%◌, ◌^◌, if◌then◌else◌,
}
use encrypted_transmission_d.Cache.{Node}
use encrypted_transmission_d.Packet.{
  Header, CommandType, DeliveryStatus, delivery_accepted, delivery_rejected, msg_type_text,
  cmd_send_msg_req, cmd_query_msg_req, cmd_query_msg_list_req,
}
use encrypted_transmission_d.Codec.{
  Protobuf, send_message_info, query_message_info, query_message_list_info, ResponseBody,
  send_msg_resp, query_msg_resp, query_msg_list_resp, encode_request, decode_response,
}
use encrypted_transmission_d.Outside.{Outside, GcmEncryptResult}
use encrypted_transmission_d.Transport.{Network}
use encrypted_transmission_d.MessageService.Cipher.{aes_128_gcm}
use encrypted_transmission_d.Client.Base.{
  ClientInfo, Client, pure, ◌>>=◌, on_host, Exchanged, not_connected, not_sent, not_received,
  received, cache_read, request_id, converse,
}
use encrypted_transmission_d.Client.Keys.{is_success, lacks_ids}

pub record EncryptTextResult : Type 0 where
  pub success : Bool
  pub ciphertext : String
  pub nonce : String
  pub tag : String
  pub algorithm : String
  pub error_msg : String

pub record SendMessageResult : Type 0 where
  pub success : Bool
  pub server_message_id : String
  pub error_msg : String

abbrev pub text_not_encrypted : String → EncryptTextResult
text_not_encrypted error = record {
  success = false;
  ciphertext = "";
  nonce = "";
  tag = "";
  algorithm = "";
  error_msg = error;
}

abbrev pub message_not_sent : String → SendMessageResult
message_not_sent error = record { success = false; server_message_id = ""; error_msg = error }

unfoldable pub delivery_status_to_string : DeliveryStatus → String
delivery_status_to_string delivery_accepted = "ACCEPTED"
delivery_status_to_string delivery_rejected = "REJECTED"
delivery_status_to_string _ = "UNKNOWN"

module _ {E H : Type 0} (o : Outside E H) where
  -- `none` where the source answers false.
  unfoldable pub usable_key : Node → Option Node
  usable_key node =
      if lacks_ids node then none else if not (int_eq node.status (pos 1)) then none else some node

  unfoldable pub get_active_key : ClientInfo → Client H (Option Node)
  get_active_key info = do node ← cache_read o info; pure (usable_key node)

  unfoldable pub encoded_text : GcmEncryptResult → EncryptTextResult
  encoded_text gcm = if not gcm.success then text_not_encrypted gcm.error_msg else record {
    success = true;
    ciphertext = o.base64_encode gcm.ciphertext;
    nonce = o.base64_encode gcm.nonce;
    tag = o.base64_encode gcm.tag;
    algorithm = aes_128_gcm;
    error_msg = "";
  }

  unfoldable pub encrypt_text : String → String → Client H EncryptTextResult
  encrypt_text base64_key plaintext =
      if is_empty (o.base64_decode base64_key)
      then pure (text_not_encrypted "Base64 解码密钥失败。")
      else (do
        gcm ← on_host (o.gcm_encrypt (o.base64_decode base64_key) plaintext)
        pure (encoded_text gcm))

  -- generateMessageId, with the counter of MessageClient.cpp.
  unfoldable pub generate_message_id : ClientInfo → Client H String
  generate_message_id info w =
      let (micros, h) = o.micros w.host in
      let next = suc w.message_sequence % 2 ^ 64 in
      some (request_id o info.client_id micros next, record w { host = h; message_sequence = next })

  -- buildHeader, and the headers of the queries.
  unfoldable pub build_header : ClientInfo → CommandType → String → Client H Header
  build_header info command receiver = do
    id ← generate_message_id info
    now ← on_host o.time
    pure (record {
      message_id = id;
      command = command;
      sender_id = info.client_id;
      receiver_id = receiver;
      timestamp = pos now;
    })

  module _ (p : Protobuf (List ℕ)) (net : Network H) (signals : H → ℕ) (info : ClientInfo) where
    unfoldable pub send_reply : ResponseBody → Client H SendMessageResult
    send_reply (send_msg_resp code message id time status) = pure (
        if is_success code
        then record { success = true; server_message_id = id; error_msg = "" }
        else message_not_sent message)
    send_reply _ = pure (message_not_sent "服务端响应体类型错误。")

    unfoldable pub accept_sent : Exchanged → Client H SendMessageResult
    accept_sent not_connected = pure (message_not_sent "连接服务器失败。")
    accept_sent not_sent = pure (message_not_sent "发送加密消息请求失败。")
    accept_sent not_received = pure (message_not_sent "接收服务器响应失败。")
    accept_sent (received bytes) = send_reply (decode_response p bytes).body

    unfoldable pub send_encrypted : String → Node → EncryptTextResult → Client H SendMessageResult
    send_encrypted receiver node encrypted =
        if not encrypted.success
        then pure (message_not_sent ("文本加密失败: " <> encrypted.error_msg))
        else (do
          header ← build_header info cmd_send_msg_req receiver
          converse net signals info
              (encode_request p (
                send_message_info header (record {
                  key_id = node.seckey_id;
                  msg_type = msg_type_text;
                  ciphertext = encrypted.ciphertext;
                  nonce = encrypted.nonce;
                  tag = encrypted.tag;
                  algorithm = encrypted.algorithm;
                })))
              accept_sent)

    unfoldable pub send_with_key : String → String → Option Node → Client H SendMessageResult
    send_with_key receiver plaintext none = pure (message_not_sent "没有可用的密钥，请先完成密钥协商。")
    send_with_key receiver plaintext (some node) =
        encrypt_text node.seckey plaintext >>= send_encrypted receiver node

    unfoldable pub send_text_message : String → String → Client H SendMessageResult
    send_text_message receiver plaintext = get_active_key info >>= send_with_key receiver plaintext

    unfoldable pub accept_query : Exchanged → Client H Bool
    accept_query (received bytes) = elim (decode_response p bytes).body [
      | query_msg_resp code message id sender receiver key type time status ↦ pure (is_success code)
      | _ ↦ pure false
    ]
    accept_query _ = pure false

    unfoldable pub query_message_by_id : String → Client H Bool
    query_message_by_id id = if is_empty id then pure false else (do
      header ← build_header info cmd_query_msg_req info.server_id
      converse net signals info (encode_request p (query_message_info header id)) accept_query)

    unfoldable pub accept_list : Exchanged → Client H Bool
    accept_list (received bytes) = elim (decode_response p bytes).body [
      | query_msg_list_resp code message messages ↦ pure (is_success code)
      | _ ↦ pure false
    ]
    accept_list _ = pure false

    unfoldable pub query_recent_messages_by_sender : String → ℤ → Client H Bool
    query_recent_messages_by_sender sender limit =
        if is_empty sender
        then pure false
        else if not (is_positive limit)
        then pure false
        else if exceeds limit 100
        then pure false
        else (do
          header ← build_header info cmd_query_msg_list_req info.server_id
          converse net signals info (encode_request p (query_message_list_info header sender limit))
              accept_list)
