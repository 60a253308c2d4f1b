-- ===== src/MessageService/Keys.antt =====
-- MessageService.cpp: the IDs, the response header, the validation and `getActiveKey`; and the calls
-- of SecKeyShm.cpp on the segment of the process.
use encrypted_transmission_d.Prelude.{
  suc, String, Bool, true, false, not, Option, none, some, ℤ, pos, is_positive, int_eq, ◌&&◌,
  is_empty, count_to_string, ◌<>◌, if◌then◌else◌,
}
use encrypted_transmission_d.Cache.{Node, shm_read, shm_write, shm_update_status}
use encrypted_transmission_d.Packet.{
  CommandType, cmd_unknown, msg_type_unknown, Header, EncryptedMessage, RequestBody, send_msg_req,
  RequestPacket,
}
use encrypted_transmission_d.Outside.{Outside, Server, pure, ◌>>=◌, on_host, on_slots}
use encrypted_transmission_d.KeyStore.{check_sec_key}

-- What protobuf answers for a submessage that is absent.
abbrev pub default_header : Header
default_header = record {
  message_id = "";
  command = cmd_unknown;
  sender_id = "";
  receiver_id = "";
  timestamp = pos 0;
}

abbrev pub default_message : EncryptedMessage
default_message = record {
  key_id = pos 0;
  msg_type = msg_type_unknown;
  ciphertext = "";
  nonce = "";
  tag = "";
  algorithm = "";
}

abbrev pub header_of : RequestPacket → Header
header_of packet = elim packet.header [ none ↦ default_header | some header ↦ header ]

abbrev body_message : RequestBody → EncryptedMessage
body_message (send_msg_req (some message)) = message
body_message _ = default_message

abbrev pub message_of : RequestPacket → EncryptedMessage
message_of packet = body_message packet.body

-- The tests of `validateRequest` on the message and the IDs; `none` is a valid request.
unfoldable pub validate_fields : Header → EncryptedMessage → Option String
validate_fields header msg =
    if is_empty header.sender_id
    then some "sender_id is empty"
    else if is_empty header.receiver_id
    then some "receiver_id is empty"
    else if not (is_positive msg.key_id)
    then some "invalid key_id"
    else if is_empty msg.ciphertext
    then some "ciphertext is empty"
    else if is_empty msg.algorithm
    then some "algorithm is empty"
    else none

unfoldable pub validate_body : Header → RequestBody → Option String
unfolding validate_fields
validate_body header (send_msg_req none) = some "message is empty"
validate_body header (send_msg_req (some msg)) = validate_fields header msg
validate_body header _ = some "send_msg_req is empty"

unfoldable pub validate_request : RequestPacket → Option String
unfolding validate_body
validate_request packet = elim packet.header [
  | none ↦ some "header is empty"
  | some header ↦ validate_body header packet.body
]

-- ActiveKeyResult.
pub record ActiveKeyResult : Type 0 where
  pub found : Bool
  pub valid : Bool
  pub base64_key : String
  pub key_id : ℤ
  pub error_msg : String

-- A result that is not valid.
abbrev pub no_key : Bool → ℤ → String → ActiveKeyResult
no_key found key_id error = record {
  found = found;
  valid = false;
  base64_key = "";
  key_id = key_id;
  error_msg = error;
}

-- The cached node is that of the key asked for.
abbrev pub is_cached : ℤ → Node → Bool
is_cached key_id node =
    not (is_empty node.client_id) && not (is_empty node.server_id) && int_eq node.seckey_id key_id

module _ {E H : Type 0} (o : Outside E H) where
  -- SecKeyShm: the segment is attached for each call.
  unfoldable pub cache_read : String → String → Server E H Node
  cache_read client server = do
    attached ← on_host o.attach
    on_slots (λ slots. (shm_read attached client server slots, slots))

  unfoldable pub cache_write : Node → Server E H ℤ
  cache_write node = do attached ← on_host o.attach; on_slots (shm_write attached node)

  unfoldable pub cache_update_status : String → String → ℤ → Server E H ℤ
  cache_update_status client server status = do
    attached ← on_host o.attach
    on_slots (shm_update_status attached client server status)

  -- generateScopedId, with the counter of its `static`.
  unfoldable pub generate_scoped_id : String → Server E H String
  generate_scoped_id prefix = do
    micros ← on_host o.micros
    λ w. (
      prefix <> "_" <> count_to_string micros <> "_" <> count_to_string (suc w.sequence),
      record w { sequence = suc w.sequence },
    )

  unfoldable pub generate_server_message_id : String → Server E H String
  generate_server_message_id server_id = generate_scoped_id (server_id <> "_msg")

  unfoldable pub generate_audit_log_id : String → Server E H String
  generate_audit_log_id server_id = generate_scoped_id (server_id <> "_audit")

  unfoldable pub time_now : Server E H ℤ
  time_now = do seconds ← on_host o.time; pure (pos seconds)

  abbrev pub header_from : String → String → String → CommandType → Server E H Header
  header_from id server_id receiver_id command = do
    now ← time_now
    pure (record {
      message_id = id;
      command = command;
      sender_id = server_id;
      receiver_id = receiver_id;
      timestamp = now;
    })

  abbrev pub header_without : String → CommandType → Server E H Header
  header_without server_id command = do
    id ← generate_server_message_id server_id
    header_from id server_id "" command

  unfoldable pub build_response_header : String → RequestPacket → CommandType → Server E H Header
  build_response_header server_id packet command = elim packet.header [
    | some header ↦ header_from header.message_id server_id header.sender_id command
    | none ↦ header_without server_id command
  ]

  -- getActiveKey: the key is cached and marked usable, so the database is asked for its state; a
  -- key that it refuses is marked unusable.
  unfoldable pub keep_or_disable : String → String → ℤ → Node → Bool → Server E H ActiveKeyResult
  keep_or_disable sender receiver key_id node true = pure (record {
    found = true;
    valid = true;
    base64_key = node.seckey;
    key_id = key_id;
    error_msg = "";
  })
  keep_or_disable sender receiver key_id node false = do
    _ ← cache_update_status sender receiver (pos 0)
    pure (no_key true key_id "key expired, revoked or rotated")

  unfoldable pub confirm_cached : String → String → ℤ → Node → Server E H ActiveKeyResult
  confirm_cached sender receiver key_id node = do
    confirmed ← check_sec_key o sender receiver key_id
    keep_or_disable sender receiver key_id node confirmed

  -- The key is not cached: without it a message cannot be decrypted.
  unfoldable pub confirm_missing : String → String → ℤ → Server E H ActiveKeyResult
  confirm_missing sender receiver key_id = do
    confirmed ← check_sec_key o sender receiver key_id
    pure (
        if confirmed
        then no_key true key_id "key valid in db but missing in shm, cannot decrypt"
        else no_key false key_id "key not found or invalid in db")

  unfoldable pub active_key_of : String → String → ℤ → Node → Server E H ActiveKeyResult
  active_key_of sender receiver key_id node =
      if is_cached key_id node
      then if int_eq node.status (pos 1)
        then confirm_cached sender receiver key_id node
        else pure (no_key true key_id "key exists in shm but status is invalid")
      else confirm_missing sender receiver key_id

  unfoldable pub get_active_key : String → String → ℤ → Server E H ActiveKeyResult
  get_active_key sender receiver key_id = do
    node ← cache_read sender receiver
    active_key_of sender receiver key_id node
