-- ===== src/Client/Base.antt =====
-- ClientOP.cpp and MessageClient.cpp: the state of the client process, the request IDs, the calls on
-- the shared memory, and one exchange with the server. SecKeyShm.cpp and TcpSocket.cpp of the client
-- are those of the server. `none` is what send_msg has no answer for.
use encrypted_transmission_d.Prelude.{
  ℕ, suc, String, Option, none, some, List, ℤ, pos, negsuc, int_eq, count_to_string, ◌+◌, ◌%◌, ◌^◌,
  length, ◌<>◌, if◌then◌else◌,
}
use encrypted_transmission_d.Cache.{Node, shm_read, shm_write, shm_update_status}
use encrypted_transmission_d.Packet.{Header, CommandType}
use encrypted_transmission_d.Outside.{Outside}
use encrypted_transmission_d.Transport.{Network, send_msg, recv_msg, disconnect}
use encrypted_transmission_d.Transport.Connect.{connect_to_host}

pub record ClientInfo : Type 0 where
  pub server_id : String
  pub client_id : String
  pub ip : String
  pub port : ℕ

-- RsaCrypto over the key files pub.pem and pri.pem, and the file that holds the public key.
pub record KeyFiles (H : Type 0) : Type 0 where
  pub generate_key_pair : H → H
  pub read_public_key : H → Option String × H
  pub rsa_sign : String → H → String × H
  pub rsa_private_decrypt : String → H → String × H

-- The state of a client process: the machine and the network, the slots of its shared memory, the
-- counters of the IDs of ClientOP.cpp and MessageClient.cpp, and m_lastServerMessageId.
pub record Process (H : Type 0) : Type 0 where
  pub host : H
  pub slots : List Node
  pub sequence : ℕ
  pub message_sequence : ℕ
  pub last_server_message_id : String

abbrev pub Client : Type 0 → Type 0 → Type 0
Client H A = Process H → Option (A × Process H)

module _ {H : Type 0} where
  abbrev pub pure : {A : Type 0} → A → Client H A
  pure a w = some (a, w)

  unfoldable pub then_run :
      {A B : Type 0} → (A → Client H B) → Option (A × Process H) → Option (B × Process H)
  then_run f none = none
  then_run f (some (a, w)) = f a w

  infixl 5 ◌>>=◌
  abbrev pub ◌>>=◌ : {A B : Type 0} → Client H A → (A → Client H B) → Client H B
  ◌>>=◌ m f w = then_run f (m w)

  abbrev pub on_host : {A : Type 0} → (H → A × H) → Client H A
  on_host f w = let (a, h) = f w.host in some (a, record w { host = h })

  abbrev pub on_slots : {A : Type 0} → (List Node → A × List Node) → Client H A
  on_slots f w = let (a, s) = f w.slots in some (a, record w { slots = s })

  unfoldable pub put_host : Process H → Option (ℤ × H) → Option (ℤ × Process H)
  put_host w none = none
  put_host w (some (code, h)) = some (code, record w { host = h })

-- What came of connectToHost, sendMsg and recvMsg.
pub data Exchanged : Type 0 where
  not_connected not_sent not_received : Exchanged
  received : List ℕ → Exchanged

module _ {E H : Type 0} (o : Outside E H) where
  -- generateClientRequestId, with the counter of its file.
  abbrev pub request_id : String → ℕ → ℕ → String
  request_id client micros sequence =
      client <> "_" <> count_to_string micros <> "_" <> count_to_string sequence

  unfoldable pub generate_client_request_id : String → Client H String
  generate_client_request_id client w =
      let (micros, h) = o.micros w.host in
      let next = suc w.sequence % 2 ^ 64 in
      some (request_id client micros next, record w { host = h; sequence = next })

  unfoldable pub cache_read : ClientInfo → Client H Node
  cache_read info = do
    attached ← on_host o.attach
    on_slots (λ slots. (shm_read attached info.client_id info.server_id slots, slots))

  unfoldable pub cache_write : Node → Client H ℤ
  cache_write node = do attached ← on_host o.attach; on_slots (shm_write attached node)

  unfoldable pub cache_update_status : ClientInfo → ℤ → Client H ℤ
  cache_update_status info status = do
    attached ← on_host o.attach
    on_slots (shm_update_status attached info.client_id info.server_id status)

  unfoldable pub build_key_header : ClientInfo → CommandType → Client H Header
  build_key_header info command = do
    id ← generate_client_request_id info.client_id
    now ← on_host o.time
    pure (record {
      message_id = id;
      command = command;
      sender_id = info.client_id;
      receiver_id = info.server_id;
      timestamp = pos now;
    })

module _ {H : Type 0} (net : Network H) (signals : H → ℕ) where
  -- sendMsg on the socket, with fuel for the frame and for the signals.
  unfoldable pub send_request : ℤ → List ℕ → Client H ℤ
  send_request fd request w =
      put_host w
        (send_msg net fd (suc (4 + length request + signals w.host)) request (pos 10) w.host)

  unfoldable pub receive_reply : ℤ → Client H Exchanged
  receive_reply fd = do
    reply ← on_host (recv_msg net fd (pos 10))
    pure (if int_eq reply.0 (pos 0) then received reply.1 else not_received)

  unfoldable pub after_send : ℤ → ℤ → Client H Exchanged
  after_send fd code = if int_eq code (pos 0) then receive_reply fd else pure not_sent

  unfoldable pub after_connect : List ℕ → ℤ × ℤ → Client H Exchanged
  after_connect request (code, fd) =
      if int_eq code (pos 0) then send_request fd request >>= after_send fd else pure not_connected

  -- A TcpSocket in the scope of a function: it is connected, the request is sent and the reply
  -- received, the rest of the function runs, and the destructor closes the socket.
  unfoldable pub converse :
      {A : Type 0} → ClientInfo → List ℕ → (Exchanged → Client H A) → Client H A
  converse info request rest = do
    socket ← on_host (connect_to_host net info.ip info.port (pos 10) (negsuc 0))
    exchanged ← after_connect request socket
    result ← rest exchanged
    closed ← on_host (disconnect net socket.1)
    pure result
