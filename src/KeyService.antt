-- ===== src/KeyService.antt =====
-- ServerOP.cpp: the requests to agree on a key, to check one and to give one up, and the dispatch of
-- a request. The responses are those before V2RespondCodec serialises them.
pub mod Checked
pub mod Agreed
use encrypted_transmission_d.Prelude.{
  String, ℕ, Bool, true, false, not, ◌&&◌, ◌||◌, Option, none, some, ℤ, pos, int_eq, len, c_str,
  ltb, ◌<>◌, ◌==◌, if◌then◌else◌,
}
use encrypted_transmission_d.Cache.{Node}
use encrypted_transmission_d.Packet.{
  RequestBody, Header, CommandType, RequestPacket, body_not_set, send_msg_req, query_msg_req,
  query_msg_list_req, key_agree_req, key_check_req, key_logout_req, ResultCode, result_success,
  result_invalid_request, result_key_invalid, result_key_agree_failed, result_key_logout_failed,
  KeyOperationResponse, SendMessageResponse, QueryMessageResponse, QueryMessageListResponse,
  delivery_rejected, cmd_key_agree_resp, cmd_key_check_resp, cmd_key_logout_resp, cmd_send_msg_resp,
}
use encrypted_transmission_d.Outside.{Outside, Server, pure, ◌>>=◌, on_host}
use encrypted_transmission_d.KeyStore.{check_sec_key, logout_sec_key, write_sec_key_with_trans}
use encrypted_transmission_d.MessageService.Keys.{
  header_of, cache_read, cache_write, cache_update_status, time_now,
}
use encrypted_transmission_d.MessageService.Handler.{handle_send_message}
use encrypted_transmission_d.QueryService.{
  build_query_header, handle_query_message, handle_query_message_list,
}

-- The sizes of the arrays of NodeSHMInfo, of which a C string fills all but the last byte.
abbrev pub id_capacity : ℕ
id_capacity = 12

abbrev pub seckey_capacity : ℕ
seckey_capacity = 128

-- A strcpy into an array of the size stays within it.
abbrev pub fits : ℕ → String → Bool
fits capacity text = ltb (len (c_str text)) capacity

-- The node that `seckeyAgree` fills by strcpy; `none` is a copy beyond the end of an array.
unfoldable pub agreed_node : String → String → String → Option Node
agreed_node client server key =
    if fits id_capacity client && fits id_capacity server && fits seckey_capacity key
    then some (record {
      status = pos 1;
      seckey_id = pos 0;
      client_id = c_str client;
      server_id = c_str server;
      seckey = c_str key;
    })
    else none

-- The test of the cache in `secKeyCheck`.
abbrev pub is_synchronised : Header → ℤ → Node → Bool
is_synchronised header key node =
    node.client_id == c_str header.sender_id
    && node.server_id == c_str header.receiver_id
    && int_eq node.seckey_id key
    && int_eq node.status (pos 1)

-- What one request is answered with.
pub data Response : Type 0 where
  send_response : SendMessageResponse → Response
  query_response : QueryMessageResponse → Response
  list_response : QueryMessageListResponse → Response
  key_response : KeyOperationResponse → Response

module _ {E H : Type 0} (o : Outside E H) (server_id : String) where
  unfoldable pub build_key_response_header : RequestPacket → CommandType → Server E H Header
  build_key_response_header packet command = do
    now ← time_now o
    pure (record {
      message_id = (header_of packet).message_id;
      command = command;
      sender_id = server_id;
      receiver_id = (header_of packet).sender_id;
      timestamp = now;
    })

  unfoldable pub make_key_response :
      RequestPacket
      → CommandType
      → ResultCode
      → String
      → ℤ
      → String
      → Server E H KeyOperationResponse
  make_key_response packet command code message key secret = do
    header ← build_key_response_header packet command
    pure (record {
      header = header;
      code = code;
      message = message;
      key_id = key;
      key_data = secret;
    })

  -- The lines of `seckeyAgree` from the transaction on: the node has its number by then.
  unfoldable pub publish_key :
      RequestPacket → String → Bool × Node → Server E H (Option KeyOperationResponse)
  publish_key packet secret (true, node) = do
    _ ← cache_write o node
    response ←
        make_key_response packet cmd_key_agree_resp result_success "key agreement success"
          node.seckey_id secret
    pure (some response)
  publish_key packet secret (false, node) = do
    response ←
        make_key_response packet cmd_key_agree_resp result_key_agree_failed "write db failed"
          (pos 0) ""
    pure (some response)

  unfoldable pub store_key :
      RequestPacket → String → Option Node → Server E H (Option KeyOperationResponse)
  store_key packet secret none = pure none
  store_key packet secret (some node) = do
    stored ← write_sec_key_with_trans o node
    publish_key packet secret stored

  -- getRandKey
  unfoldable pub get_rand_key : ℕ → Server E H String
  get_rand_key length = on_host (o.rand_bytes length)

  unfoldable pub agree_on_key :
      RequestPacket → Header → String → Bool → Server E H (Option KeyOperationResponse)
  agree_on_key packet header file false = do
    response ←
        make_key_response packet cmd_key_agree_resp result_key_agree_failed "verify sign failed"
          (pos 0) ""
    pure (some response)
  agree_on_key packet header file true = do
    key ← get_rand_key 16
    secret ← on_host (o.rsa_public_encrypt file key)
    store_key packet secret (agreed_node header.sender_id header.receiver_id (o.base64_encode key))

  unfoldable pub agree_valid :
      RequestPacket → Header → String → String → Server E H (Option KeyOperationResponse)
  agree_valid packet header public_key sign = do
    _ ← on_host (λ h. (tt, o.write_file (header.sender_id <> "_pub.pem") public_key h))
    verified ← on_host (o.rsa_verify (header.sender_id <> "_pub.pem") (o.sha256 public_key) sign)
    agree_on_key packet header (header.sender_id <> "_pub.pem") verified

  abbrev pub invalid_agreement : RequestPacket → Server E H (Option KeyOperationResponse)
  invalid_agreement packet = do
    response ←
        make_key_response packet cmd_key_agree_resp result_invalid_request
          "invalid key agreement request" (pos 0) ""
    pure (some response)

  unfoldable pub agree_parts :
      RequestPacket → Option Header → RequestBody → Server E H (Option KeyOperationResponse)
  agree_parts packet (some header) (key_agree_req public_key sign) =
      agree_valid packet header public_key sign
  agree_parts packet _ _ = invalid_agreement packet

  -- `none` is undefined behaviour.
  unfoldable pub seckey_agree : RequestPacket → Server E H (Option KeyOperationResponse)
  seckey_agree packet = agree_parts packet packet.header packet.body

  -- A key that the database refuses: the cache is told so if it holds that very key.
  unfoldable pub refuse_key : RequestPacket → Header → ℤ → Node → Server E H KeyOperationResponse
  refuse_key packet header key node =
      if int_eq node.seckey_id key
      then (do
        _ ← cache_update_status o header.sender_id header.receiver_id (pos 0)
        make_key_response packet cmd_key_check_resp result_key_invalid
            "key expired, revoked, rotated or not found" key "")
      else make_key_response packet cmd_key_check_resp result_key_invalid
          "key expired, revoked, rotated or not found" key ""

  unfoldable pub report_check :
      RequestPacket → Header → ℤ → Node → Bool → Server E H KeyOperationResponse
  report_check packet header key node true =
      make_key_response packet cmd_key_check_resp result_success
        (if is_synchronised header key node
          then "key active"
          else "key active in db, local cache missing")
        key ""
  report_check packet header key node false = refuse_key packet header key node

  unfoldable pub check_valid : RequestPacket → Header → ℤ → Server E H KeyOperationResponse
  check_valid packet header key = do
    node ← cache_read o header.sender_id header.receiver_id
    confirmed ← check_sec_key o header.sender_id header.receiver_id key
    report_check packet header key node confirmed

  unfoldable pub check_parts :
      RequestPacket → Option Header → RequestBody → Server E H KeyOperationResponse
  check_parts packet (some header) (key_check_req key) = check_valid packet header key
  check_parts packet _ _ =
      make_key_response packet cmd_key_check_resp result_invalid_request "invalid key check request"
        (pos 0) ""

  unfoldable pub sec_key_check : RequestPacket → Server E H KeyOperationResponse
  sec_key_check packet = check_parts packet packet.header packet.body

  unfoldable pub report_logout : RequestPacket → Header → ℤ → Bool → Server E H KeyOperationResponse
  report_logout packet header key true = do
    updated ← cache_update_status o header.sender_id header.receiver_id (pos 0)
    make_key_response packet cmd_key_logout_resp result_success
        (if int_eq updated (pos 0)
          then "logout success"
          else "db logout success, shm update failed")
        key ""
  report_logout packet header key false =
      make_key_response packet cmd_key_logout_resp result_key_logout_failed "logout failed in db"
        key ""

  unfoldable pub logout_valid : RequestPacket → Header → ℤ → Server E H KeyOperationResponse
  logout_valid packet header key = do
    done ← logout_sec_key o header.sender_id header.receiver_id key
    report_logout packet header key done

  unfoldable pub logout_parts :
      RequestPacket → Option Header → RequestBody → Server E H KeyOperationResponse
  logout_parts packet (some header) (key_logout_req key) = logout_valid packet header key
  logout_parts packet _ _ =
      make_key_response packet cmd_key_logout_resp result_invalid_request
        "invalid key logout request" (pos 0) ""

  unfoldable pub seckey_logout : RequestPacket → Server E H KeyOperationResponse
  seckey_logout packet = logout_parts packet packet.header packet.body

  -- The default of the switch.
  unfoldable pub unsupported : RequestPacket → Server E H SendMessageResponse
  unsupported packet = do
    header_time ← time_now o
    server_time ← time_now o
    pure (record {
      header = record {
        message_id = (header_of packet).message_id;
        command = cmd_send_msg_resp;
        sender_id = server_id;
        receiver_id = (header_of packet).sender_id;
        timestamp = header_time;
      };
      code = result_invalid_request;
      message = "unsupported v2 request type";
      server_message_id = "";
      server_time = server_time;
      delivery_status = delivery_rejected;
    })

  abbrev pub responded : {A : Type 0} → (A → Response) → Server E H A → Server E H (Option Response)
  responded wrap handler = do response ← handler; pure (some (wrap response))

  unfoldable pub dispatch : RequestPacket → RequestBody → Server E H (Option Response)
  dispatch packet (send_msg_req _) =
      responded send_response (handle_send_message o server_id packet)
  dispatch packet (query_msg_req _) =
      responded query_response (handle_query_message o server_id packet)
  dispatch packet (query_msg_list_req _ _) =
      responded list_response (handle_query_message_list o server_id packet)
  dispatch packet (key_agree_req _ _) = do
    response ← seckey_agree packet
    pure (elim response [ none ↦ none | some r ↦ some (key_response r) ])
  dispatch packet (key_check_req _) = responded key_response (sec_key_check packet)
  dispatch packet (key_logout_req _) = responded key_response (seckey_logout packet)
  dispatch packet body_not_set = responded send_response (unsupported packet)

  -- processV2Request, up to the serialisation of the response.
  unfoldable pub process_v2_request : String → Server E H (Option Response)
  process_v2_request received = let packet = o.parse_request received in dispatch packet packet.body
