-- ===== src/Tests/Transport.antt =====
-- Runs of the theorems on the transport: messages through the pipe.
use encrypted_transmission_d.Prelude.{
  ℕ, ◌^◌, ◌≤◌, true, some, List, [], ◌∷◌, ◌++◌, pos, take, drop, Bool, ltb, if◌then◌else◌, ◌≡◌, ◌≢◌,
  refl, ◌⊎◌, arith,
}
use encrypted_transmission_d.Transport.{
  frame_of, recv_msg, send_msg, readn, Network, got, recv_failed, send_failed, timed_out,
  in_progress, write_frame, write_with_timeout, report_write, writen, writen_loop, after_send,
}
use encrypted_transmission_d.Transport.Bytes.{decode_length, encode_length}
use encrypted_transmission_d.Transport.Reading.{Delivered, recv_msg_negative}
use encrypted_transmission_d.Transport.Writing.{Wrote, send_msg-Wrote}
use encrypted_transmission_d.Transport.RoundTrip.{Holds, send_msg-Holds, recv_msg-Holds}
use encrypted_transmission_d.Transport.Live.{recv_msg_live}
use encrypted_transmission_d.Transport.Bounds.{readn_buffer}
use encrypted_transmission_d.Transport.Connect.{connect_timeout, connect_timeout-blocking}
use encrypted_transmission_d.Tests.Wire.{pipe, pipe-IsStream, pipe-IsLive, pipe-IsOutlet}

abbrev payload : List ℕ
payload = 7 ∷ 8 ∷ []

abbrev frame : List ℕ
frame = 0 ∷ 0 ∷ 0 ∷ 2 ∷ 7 ∷ 8 ∷ []

framed : frame_of payload ≡ some frame
unfolding frame_of encode_length
framed = refl

abbrev bytes : List ℕ → List ℕ
bytes n = n

abbrev quiet : List ℕ → ℕ
quiet n = 0

recv_msg_live_example :
    ((recv_msg pipe (pos 3) (pos 10) (frame ++ (9 ∷ []))).0 ≡ (pos 0, payload))
    × ((recv_msg pipe (pos 3) (pos 10) (frame ++ (9 ∷ []))).1 ≡ 9 ∷ [])
recv_msg_live_example =
    recv_msg_live pipe (pos 3) bytes (pipe-IsStream (pos 3)) (pipe-IsLive (pos 3)) payload frame
      (9 ∷ []) (pos 10) (frame ++ (9 ∷ [])) (omega arith) framed refl refl

negative : 2 ^ 31 ≤ decode_length (255 ∷ 255 ∷ 255 ∷ 255 ∷ [])
unfolding decode_length
negative = omega arith

recv_msg_negative_example :
    Delivered pipe
      (pos 3)
      bytes
      (pipe-IsStream (pos 3))
      []
      (7 ∷ 8 ∷ [])
      (recv_msg pipe (pos 3) (pos 10) (255 ∷ 255 ∷ 255 ∷ 255 ∷ 7 ∷ 8 ∷ []))
recv_msg_negative_example =
    recv_msg_negative pipe (pos 3) bytes (pipe-IsStream (pos 3)) (255 ∷ 255 ∷ 255 ∷ 255 ∷ [])
      (7 ∷ 8 ∷ []) (pos 10) (255 ∷ 255 ∷ 255 ∷ 255 ∷ 7 ∷ 8 ∷ []) refl refl negative

send_msg-Wrote_example :
    Wrote pipe
      (pos 3)
      bytes
      quiet
      (pipe-IsOutlet (pos 3))
      frame
      (9 ∷ [])
      (send_msg pipe (pos 3) 7 payload (pos 10) (9 ∷ []))
send_msg-Wrote_example =
    send_msg-Wrote pipe (pos 3) bytes quiet (pipe-IsOutlet (pos 3)) 7 payload frame (pos 10)
      (9 ∷ []) framed (omega arith)

abbrev HoldsPipe : List (List ℕ) → List ℕ → Type 0
HoldsPipe = Holds pipe (pos 3) (pos 4) bytes quiet (pipe-IsOutlet (pos 3)) (pipe-IsStream (pos 4))

sent : send_msg pipe (pos 3) 7 payload (pos 10) [] ≡ some (pos 0, frame)
unfolding send_msg frame_of encode_length write_frame write_with_timeout report_write writen
    writen_loop after_send
sent = refl

send_msg-Holds_example : HoldsPipe (payload ∷ []) frame
send_msg-Holds_example =
    send_msg-Holds pipe (pos 3) (pos 4) bytes quiet (pipe-IsOutlet (pos 3)) (pipe-IsStream (pos 4))
      7 payload frame [] (pos 10) [] frame (omega arith) framed (omega arith)
      (record { under_way = refl; short = tt }) sent

recv_msg-Holds_example :
    ((recv_msg pipe (pos 4) (pos 10) frame).0.0 ≢ pos 0)
    ⊎ (((recv_msg pipe (pos 4) (pos 10) frame).0 ≡ (pos 0, payload))
        × HoldsPipe [] (recv_msg pipe (pos 4) (pos 10) frame).1)
unfolding encode_length
recv_msg-Holds_example =
    recv_msg-Holds pipe (pos 3) (pos 4) bytes quiet (pipe-IsOutlet (pos 3)) (pipe-IsStream (pos 4))
      payload [] (pos 10) frame (record { under_way = refl; short = (omega arith, tt) })

-- A pipe that fails where more than 1024 bytes are asked for.
abbrev narrow : Network (List ℕ)
narrow = record pipe {
  recv = λ fd k n. if ltb 1024 k then (recv_failed, n) else (got (take k n), drop k n);
}

narrow_agrees : (k : ℕ) (n : List ℕ) → k ≤ 1024 → pipe.recv (pos 3) k n ≡ narrow.recv (pos 3) k n
narrow_agrees k n h = ground arith

readn_buffer_example : readn pipe (pos 3) 3000 frame ≡ readn narrow (pos 3) 3000 frame
readn_buffer_example = readn_buffer pipe narrow (pos 3) narrow_agrees 3000 frame

-- A socket that has only its mode, and no peer.
abbrev modal : Network Bool
modal = record {
  recv = λ fd k n. (recv_failed, n);
  send = λ fd buffer n. (send_failed, n);
  select_read = λ fd t n. (timed_out, n);
  select_write = λ fd t n. (timed_out, n);
  socket = λ n. (pos 3, n);
  inet_pton = λ ip. true;
  connect = λ fd ip port n. (in_progress, n);
  socket_error = λ fd n. (pos 0, n);
  set_blocking = λ fd b n. (true, b);
  close = λ fd n. n;
  errno = λ n. pos 0;
  set_errno = λ e n. n;
}

connect_timeout-blocking_example :
    (connect_timeout modal (pos 3) "127.0.0.1" 9000 (pos 10) true).1 ≡ true
connect_timeout-blocking_example =
    connect_timeout-blocking modal (pos 3) (λ n. n)
      (record { sets = λ b n h. refl; leaves = λ b n h. absurd (cc); errno_apart = λ e n. refl })
      "127.0.0.1" 9000 (pos 10) true (λ m. refl)
