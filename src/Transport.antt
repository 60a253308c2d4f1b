-- ===== src/Transport.antt =====
-- TcpSocket.cpp: frames of a length and a payload over a connection. A byte is a number below 256.
-- `none` is undefined behaviour or an exception of the source, or a loop that is still running when
-- its fuel is spent.
pub mod Bytes
pub mod Connect
pub mod Reading
pub mod Writing
pub mod RoundTrip
pub mod Bounds
pub mod Live
use encrypted_transmission_d.Prelude.{
  ℕ, zero, suc, ◌%◌, ◌^◌, ◌+◌, ◌-◌, ◌<◌, String, Bool, true, false, not, ◌&&◌, ◌||◌, Option, none,
  some, List, [], ◌∷◌, ◌++◌, ℤ, pos, negsuc, int_eq, is_negative, length, take, drop, ltb, leb, eqb,
  if◌then◌else◌, arith, dec_lt, lt_wf,
}
use mathlib.Core.WellFounded.{Acc, WellFounded}
use mathlib.Core.Logic.{dite}
use encrypted_transmission_d.Transport.Bytes.{encode_length, decode_length}

-- TcpSocket::ErrorType
abbrev pub param_error : ℤ
param_error = pos 3001

abbrev pub timeout_error : ℤ
timeout_error = pos 3002

abbrev pub peer_close_error : ℤ
peer_close_error = pos 3003

abbrev pub syscall_error : ℤ
syscall_error = pos 3005

abbrev pub failure : ℤ
failure = negsuc 0

-- What recv answers: bytes, none of which is an end of the stream; what send answers: a count; and
-- what select answers of one descriptor.
pub data Received : Type 0 where
  got : List ℕ → Received
  recv_failed : Received

pub data Sent : Type 0 where
  wrote : ℕ → Sent
  interrupted : Sent
  send_failed : Sent

pub data Ready : Type 0 where
  ready : Ready
  timed_out : Ready
  select_failed : Ready

-- What a non-blocking connect answers.
pub data Connecting : Type 0 where
  connected : Connecting
  in_progress : Connecting
  connect_failed : Connecting

-- The system calls on sockets, over the state `N` of the network; `descriptor` is the socket.
pub record Network (N : Type 0) : Type 0 where
  pub recv : ℤ → ℕ → N → Received × N
  pub send : ℤ → List ℕ → N → Sent × N
  pub select_read : ℤ → ℤ → N → Ready × N
  pub select_write : ℤ → ℤ → N → Ready × N
  pub socket : N → ℤ × N
  -- whether the text is an address
  pub inet_pton : String → Bool
  pub connect : ℤ → String → ℕ → N → Connecting × N
  -- SO_ERROR of the socket
  pub socket_error : ℤ → N → ℤ × N
  -- fcntl, with or without O_NONBLOCK; whether it succeeded
  pub set_blocking : ℤ → Bool → N → Bool × N
  pub close : ℤ → N → N
  pub errno : N → ℤ
  pub set_errno : ℤ → N → N

abbrev pub etimedout : ℤ
etimedout = pos 110

-- A call on the network.
abbrev pub Net : Type 0 → Type 0 → Type 0
Net N A = N → A × N

module _ {N : Type 0} where
  abbrev pub return : {A : Type 0} → A → Net N A
  return a n = (a, n)

  infixl 5 ◌>>=◌
  abbrev pub ◌>>=◌ : {A B : Type 0} → Net N A → (A → Net N B) → Net N B
  ◌>>=◌ m f n = let (a, n') = m n in f a n'

-- sendMsg's buffer: the length as an int in network order, and the payload. From 2 ^ 31 - 4 on
-- `4 + dataLen` overflows or is negative.
unfoldable pub frame_of : List ℕ → Option (List ℕ)
frame_of payload =
    let size = length payload % 2 ^ 32 in
    if ltb size (2 ^ 31 - 4) then some (encode_length size ++ take size payload) else none

-- `int readLen = left > sizeof(buf) ? sizeof(buf) : left`
abbrev pub read_length : ℕ → ℕ
read_length left = if ltb 1024 left then 1024 else left

-- The length as an int: from 2 ^ 31 on it is negative, and nothing is read.
abbrev pub body_length : List ℕ → ℕ
body_length header = if ltb (decode_length header) (2 ^ 31) then decode_length header else 0

pub shrinks : (left k : ℕ) → 0 < left → 0 < k → left - k < left
shrinks left k p q = omega arith

pub not_empty : {A : Type 0} (b : A) (bytes : List A) → 0 < length (b ∷ bytes)
not_empty b bytes = omega arith

module _ {N : Type 0} (o : Network N) (fd : ℤ) where
  -- A round of readn after recv; `more` is the next one.
  unfoldable pub after_recv :
      List ℕ
      → Received
      → N
      → ((bytes : List ℕ) → 0 < length bytes → Net N (ℤ × List ℕ))
      → (ℤ × List ℕ) × N
  after_recv buffer recv_failed n more = ((failure, buffer), n)
  after_recv buffer (got []) n more = ((peer_close_error, buffer), n)
  after_recv buffer (got (b ∷ bytes)) n more = more (b ∷ bytes) (not_empty b bytes) n

  -- The loop of readn: it ends, for each round reads a byte at least or returns.
  unfoldable pub readn_loop : (left : ℕ) → Acc ◌<◌ left → List ℕ → Net N (ℤ × List ℕ)
  unfolding after_recv
  readn_loop left (Acc.intro _ smaller) buffer n =
      dite (dec_lt 0 left)
        (λ remains.
          let (r, n') = o.recv fd (read_length left) n in
          after_recv buffer r n' (λ bytes some_bytes.
            readn_loop (left - length bytes)
              (smaller _ (shrinks left (length bytes) remains some_bytes)) (buffer ++ bytes)))
        (λ _. ((pos 0, buffer), n))

  unfoldable pub readn : ℕ → Net N (ℤ × List ℕ)
  readn len = readn_loop len (lt_wf.apply len) []

  unfoldable pub read_with_timeout : ℤ → Net N ℤ
  read_with_timeout seconds = do
    r ← o.select_read fd seconds
    return (elim r [ timed_out ↦ timeout_error | ready ↦ pos 0 | select_failed ↦ failure ])

  unfoldable pub write_with_timeout : ℤ → Net N ℤ
  write_with_timeout seconds = do
    r ← o.select_write fd seconds
    return (elim r [ timed_out ↦ timeout_error | ready ↦ pos 0 | select_failed ↦ failure ])

  -- recvMsg from the length on.
  unfoldable pub read_payload : ℤ × List ℕ → Net N (ℤ × List ℕ)
  read_payload (code, header) =
      if int_eq code (pos 0) then readn (body_length header) else return (code, [])

  unfoldable pub read_frame : ℤ → Net N (ℤ × List ℕ)
  read_frame code = if int_eq code (pos 0) then readn 4 >>= read_payload else return (code, [])

  unfoldable pub recv_msg : ℤ → Net N (ℤ × List ℕ)
  recv_msg timeout =
      if is_negative fd || is_negative timeout
      then return (param_error, [])
      else (do code ← read_with_timeout timeout; read_frame code)

  -- A round of writen after send: a signal starts the call again. `more` writes the rest.
  unfoldable pub after_send : List ℕ → Sent → N → (List ℕ → N → Option (ℤ × N)) → Option (ℤ × N)
  after_send buffer (wrote zero) n more = some (failure, n)
  after_send buffer (wrote (suc k)) n more = more (drop (suc k) buffer) n
  after_send buffer interrupted n more = more buffer n
  after_send buffer send_failed n more = some (failure, n)

  -- The loop of writen.
  unfoldable pub writen_loop : ℕ → List ℕ → N → Option (ℤ × N)
  unfolding after_send
  writen_loop zero buffer n = none
  writen_loop (suc fuel) [] n = some (pos 0, n)
  writen_loop (suc fuel) (b ∷ buffer) n =
      let (r, n') = o.send fd (b ∷ buffer) n in after_send (b ∷ buffer) r n' (writen_loop fuel)

  -- With fuel for `len` bytes and for the signals that may come.
  unfoldable pub writen : ℕ → List ℕ → N → Option (ℤ × N)
  writen = writen_loop

  -- sendMsg once the socket is writable.
  unfoldable pub report_write : Option (ℤ × N) → Option (ℤ × N)
  report_write none = none
  report_write (some (code, n)) = some (if int_eq code (pos 0) then pos 0 else syscall_error, n)

  unfoldable pub write_frame : ℕ → List ℕ → ℤ × N → Option (ℤ × N)
  write_frame fuel frame (code, n) =
      if int_eq code (pos 0)
      then report_write (writen fuel frame n)
      else some (
        if int_eq code failure
            then syscall_error
            else if int_eq code timeout_error
            then timeout_error
            else syscall_error,
        n,
      )

  unfoldable pub send_msg : ℕ → List ℕ → ℤ → N → Option (ℤ × N)
  send_msg fuel payload timeout n =
      if is_negative fd || is_negative timeout
      then some (param_error, n)
      else elim (frame_of payload) [
        | none ↦ none
        | some frame ↦ write_frame fuel frame (write_with_timeout timeout n)
      ]

module _ {N : Type 0} (o : Network N) where
  unfoldable pub disconnect : ℤ → Net N (ℤ × ℤ)
  disconnect fd n = if int_eq fd failure then ((pos 0, fd), n) else ((pos 0, failure), o.close fd n)
