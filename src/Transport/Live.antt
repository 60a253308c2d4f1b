-- ===== src/Transport/Live.antt =====
-- TcpSocket.cpp, recvMsg on a connection that stays up.
use encrypted_transmission_d.Prelude.{
  ℕ, ◌-◌, ◌^◌, ◌≤◌, ◌<◌, false, List, [], ◌∷◌, ◌++◌, ℤ, pos, ◌≡◌, refl, sym, ap, ◌∙◌, inl, inr,
  length, length-append, arith, dec_lt, lt_wf, le_prop, is_negative, ◌||◌, some,
}
use mathlib.Core.List.{append_assoc}
use mathlib.Core.Logic.{dif_pos, dif_neg}
use mathlib.Core.WellFounded.{Acc}
use encrypted_transmission_d.Transport.{
  Network, Net, Received, got, recv_failed, ready, read_length, after_recv, readn_loop, readn,
  read_payload, read_frame, read_with_timeout, recv_msg, shrinks, not_empty, body_length, frame_of,
}
use encrypted_transmission_d.Transport.Bytes.{encode_length, decode_length-encode_length}
use encrypted_transmission_d.Transport.Reading.{IsStream, readn-Delivered, frame_of_lem}

abbrev pub HasBytes : Received → Type 0
HasBytes recv_failed = ⊥
HasBytes (got []) = ⊥
HasBytes (got (b ∷ bytes)) = Unit

-- A connection on which no call fails while bytes are pending.
pub record IsLive {N : Type 0} (o : Network N) (fd : ℤ) (pending : N → List ℕ) : Type 0 where
  pub gives : (k : ℕ) (n : N) → 0 < k → 0 < length (pending n) → HasBytes (o.recv fd k n).0
  pub readable : (t : ℤ) (n : N) → (o.select_read fd t n).0 ≡ ready

module _ {N : Type 0} (o : Network N) (fd : ℤ) (pending : N → List ℕ)
    (stream : IsStream o fd pending) (live : IsLive o fd pending) where
  after_recv-zero :
      (left : ℕ) (buffer : List ℕ) (n n' : N) (r : Received)
      (more : (bytes : List ℕ) → 0 < length bytes → Net N (ℤ × List ℕ))
      → o.recv fd (read_length left) n ≡ (r, n')
      → left ≤ length (pending n)
      → HasBytes r
      → ((bytes : List ℕ) (h : 0 < length bytes)
          → left - length bytes ≤ length (pending n')
          → (more bytes h n').0.0 ≡ pos 0)
      → (after_recv o fd buffer r n' more).0.0 ≡ pos 0
  unfolding after_recv
  after_recv-zero left buffer n n' recv_failed more e enough r h = absurd r
  after_recv-zero left buffer n n' (got []) more e enough r h = absurd r
  after_recv-zero left buffer n n' (got (b ∷ bytes)) more e enough r h =
      let (short, p) = stream.in_order (read_length left) n n' (b ∷ bytes) e in
      h (b ∷ bytes) (not_empty b bytes)
        (omega (arith, ap length p, length-append (b ∷ bytes) (pending n')))

  readn_loop-zero :
      (left : ℕ) (w : Acc ◌<◌ left) (buffer : List ℕ) (n : N)
      → left ≤ length (pending n)
      → (readn_loop o fd left w buffer n).0.0 ≡ pos 0
  unfolding readn_loop
  readn_loop-zero left (Acc.intro _ smaller) buffer n enough = elim (dec_lt 0 left) [
    | yes p ↦ rw (dif_pos _ le_prop p) (
        after_recv-zero left buffer n _ _ _ refl enough
          (live.gives (read_length left) n (ground arith) (omega arith))
          (λ bytes h m.
            readn_loop-zero (left - length bytes) (smaller _ (shrinks left (length bytes) p h))
              (buffer ++ bytes) _ m))
    | no p ↦ rw (dif_neg _ p) refl
  ]

  readn-whole :
      (k : ℕ) (chunk rest : List ℕ) (n : N)
      → pending n ≡ chunk ++ rest
      → length chunk ≡ k
      → ((readn o fd k n).0 ≡ (pos 0, chunk)) × (pending (readn o fd k n).1 ≡ rest)
  unfolding readn
  readn-whole k chunk rest n e h =
      let z =
        readn_loop-zero k (lt_wf.apply k) [] n
          (omega (arith, ap length e, length-append chunk rest)) in
      elim (readn-Delivered o fd pending stream k chunk rest n e h) [
        | inl bad ↦ absurd (bad z)
        | inr (ok, b, p) ↦ (cc, p)
      ]

  read_frame-whole :
      (header payload rest : List ℕ) (n : N)
      → length header ≡ 4
      → body_length header ≡ length payload
      → pending n ≡ header ++ (payload ++ rest)
      → ((read_frame o fd (pos 0) n).0 ≡ (pos 0, payload))
        × (pending (read_frame o fd (pos 0) n).1 ≡ rest)
  unfolding read_frame read_payload
  read_frame-whole header payload rest n four size e =
      let (h, p) = readn-whole 4 header (payload ++ rest) n e four in
      rw h (readn-whole (body_length header) payload rest (readn o fd 4 n).1 p (sym size))

  -- A message that sendMsg frames, whole at the head of a connection that stays up: recvMsg answers
  -- 0 with exactly its payload and leaves what follows it.
  pub recv_msg_live :
      (payload frame rest : List ℕ) (timeout : ℤ) (n : N)
      → length payload < 2 ^ 32
      → frame_of payload ≡ some frame
      → pending n ≡ frame ++ rest
      → (is_negative fd || is_negative timeout) ≡ false
      → ((recv_msg o fd timeout n).0 ≡ (pos 0, payload))
        × (pending (recv_msg o fd timeout n).1 ≡ rest)
  unfolding recv_msg read_with_timeout encode_length
  recv_msg_live payload frame rest timeout n small framed e fine =
      let (short, f) = frame_of_lem payload frame small framed in
      let d = decode_length-encode_length (length payload) (omega arith) in
      rw (fine, live.readable timeout n)
        (read_frame-whole (encode_length (length payload)) payload rest
          (o.select_read fd timeout n).1 refl (ground arith)
          (stream.select_keeps timeout n
            ∙ e
            ∙ ap (λ x. x ++ rest) f
            ∙ append_assoc (encode_length (length payload)) payload rest))
