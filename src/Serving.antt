-- ===== src/Serving.antt =====
-- ServerOP.cpp and ThreadPool.cpp: one connection from its request to its close, and the event loop
-- that hands connections to the workers.
pub mod Handling
pub mod Accept
pub mod Pool
pub mod Exclusion
pub mod Order
use encrypted_transmission_d.Prelude.{
  ℕ, suc, ◌+◌, Bool, true, false, not, Option, none, some, String, List, [], ◌∷◌, ◌++◌, ℤ, pos,
  int_eq, length, if◌then◌else◌,
}
use encrypted_transmission_d.Codec.{Protobuf, encode_response, decode_request}
use encrypted_transmission_d.KeyService.{Response, dispatch}
use encrypted_transmission_d.Outside.{Outside, World, Server, pure, ◌>>=◌, on_host}
use encrypted_transmission_d.Transport.{Network, recv_msg, send_msg, disconnect}

-- `rspData.empty()`
abbrev pub no_bytes : List ℕ → Bool
no_bytes [] = true
no_bytes (b ∷ bytes) = false

-- `del_fd` takes a descriptor out of the epoll set; `signals` bounds the signals that may interrupt
-- a send.
module _ {E H : Type 0} (o : Outside E H) (p : Protobuf (List ℕ)) (net : Network H)
    (signals : H → ℕ) (del_fd : ℤ → H → H) (server_id : String) where
  unfoldable pub encode_answer : Option Response → Option (List ℕ)
  encode_answer none = none
  encode_answer (some response) = some (encode_response p response)

  -- processV2Request, the serialisation of the response included; `none` is undefined behaviour.
  unfoldable pub process_request : List ℕ → Server E H (Option (List ℕ))
  process_request received = do
    response ← dispatch o server_id (decode_request p received) (decode_request p received).body
    pure (encode_answer response)

  -- delFd and disconnect.
  unfoldable pub close_client : ℤ → Server E H (Option (Unit {0}))
  close_client fd = do
    _ ← on_host (λ h. (tt, del_fd fd h))
    _ ← on_host (disconnect net fd)
    pure (some tt)

  unfoldable pub finish_response : ℤ → Option (ℤ × H) → Server E H (Option (Unit {0}))
  finish_response fd none w = (none, w)
  finish_response fd (some (code, h)) w = close_client fd (record w { host = h })

  unfoldable pub respond : ℤ → Option (List ℕ) → Server E H (Option (Unit {0}))
  respond fd none w = (none, w)
  respond fd (some reply) w =
      if no_bytes reply
      then close_client fd w
      else finish_response fd
          (send_msg net fd (suc (4 + length reply + signals w.host)) reply (pos 10) w.host) w

  unfoldable pub serve : ℤ → ℤ × List ℕ → Server E H (Option (Unit {0}))
  serve fd (code, received) =
      if int_eq code (pos 0) then process_request received >>= respond fd else close_client fd

  -- handleClientFd; `none` is undefined behaviour, or a response that no frame holds.
  unfoldable pub handle_client_fd : ℤ → Server E H (Option (Unit {0}))
  handle_client_fd fd = do message ← on_host (recv_msg net fd (pos 10)); serve fd message
