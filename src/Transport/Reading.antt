-- ===== src/Transport/Reading.antt =====
-- TcpSocket.cpp, readn and recvMsg on a stream: what is read, and that nothing of it is lost.
use encrypted_transmission_d.Prelude.{
  ℕ, ◌-◌, ◌%◌, ◌^◌, ◌≤◌, ◌<◌, List, [], ◌∷◌, ◌++◌, ℤ, pos, ◌≡◌, ◌≢◌, refl, sym, ap, ◌∙◌, ◌⊎◌, inl,
  inr, length, length-append, ltb, dec_lt, lt_wf, le_prop, append_cut, take_all, some, int_eq,
  int_eq_iff, is_negative, ◌||◌, arith, Bool-cases,
}
use mathlib.Core.List.{append_assoc, append-nil}
use mathlib.Core.Logic.{dif_pos, dif_neg}
use mathlib.Core.WellFounded.{Acc}
use encrypted_transmission_d.Transport.{
  body_length, frame_of, not_empty, Network, Net, Received, got, recv_failed, read_length,
  after_recv, readn_loop, readn, read_with_timeout, read_payload, read_frame, recv_msg, shrinks,
}
use encrypted_transmission_d.Transport.Bytes.{
  decode_length, encode_length, decode_length-encode_length,
}

-- The bytes that the peer has sent and recv has not yet given out. What recv gives is their beginning,
-- no more of it than was asked for; and select takes nothing.
pub record IsStream {N : Type 0} (o : Network N) (fd : ℤ) (pending : N → List ℕ) : Type 0 where
  pub in_order :
      (k : ℕ) (n n' : N) (bytes : List ℕ)
      → o.recv fd k n ≡ (got bytes, n')
      → (length bytes ≤ k) × (pending n ≡ bytes ++ pending n')
  pub select_keeps : (t : ℤ) (n : N) → pending (o.select_read fd t n).1 ≡ pending n

pub frame_of_lem :
    (payload frame : List ℕ)
    → length payload < 2 ^ 32
    → frame_of payload ≡ some frame
    → (length payload < 2 ^ 31) × (frame ≡ encode_length (length payload) ++ payload)
unfolding frame_of
frame_of_lem payload frame small f =
    let size : length payload % 2 ^ 32 ≡ length payload = omega arith in
    let whole = take_all (length payload) payload (omega arith) in
    elim (Bool-cases (ltb (length payload) (2 ^ 31 - 4))) [
      | inl fits ↦ (ground arith, let f' = rw (size, fits, whole) at f in cc)
      | inr long ↦ absurd (let f' = rw (size, long) at f in cc)
    ]

module _ {N : Type 0} (o : Network N) (fd : ℤ) (pending : N → List ℕ)
    (stream : IsStream o fd pending) where
  -- Exactly `left` bytes are taken from the stream and added, or the code is not 0.
  abbrev pub Took : ℕ → List ℕ → N → ℤ × List ℕ → N → Type 0
  Took left buffer n (code, bytes) n' =
      (code ≢ pos 0)
      ⊎ ((code ≡ pos 0)
          × ((chunk : List ℕ) × (bytes ≡ buffer ++ chunk)
              × (length chunk ≡ left)
              × (pending n ≡ chunk ++ pending n')))

  Took-step :
      (left : ℕ) (buffer first : List ℕ) (n n' n'' : N) (r : ℤ × List ℕ)
      → pending n ≡ first ++ pending n'
      → length first ≤ left
      → Took (left - length first) (buffer ++ first) n' r n''
      → Took left buffer n r n''
  Took-step left buffer first n n' n'' r e h (inl bad) = inl bad
  Took-step left buffer first n n' n'' r e h (inr (ok, (chunk, b, c, p))) = inr (
    ok,
    (
      first ++ chunk,
      b ∙ append_assoc buffer first chunk,
      omega (arith, length-append first chunk, c),
      e ∙ ap (λ x. first ++ x) p ∙ sym (append_assoc first chunk (pending n'')),
    ),
  )

  after_recv-Took :
      (left : ℕ) (buffer : List ℕ) (n n' : N) (r : Received)
      (more : (bytes : List ℕ) → 0 < length bytes → Net N (ℤ × List ℕ))
      → o.recv fd (read_length left) n ≡ (r, n')
      → ((bytes : List ℕ) (h : 0 < length bytes)
          → Took (left - length bytes) (buffer ++ bytes) n' (more bytes h n').0 (more bytes h n').1)
      → Took left buffer n (after_recv o fd buffer r n' more).0 (after_recv o fd buffer r n' more).1
  unfolding after_recv
  after_recv-Took left buffer n n' recv_failed more e h = inl (λ x. cc)
  after_recv-Took left buffer n n' (got []) more e h = inl (λ x. cc)
  after_recv-Took left buffer n n' (got (b ∷ bytes)) more e h =
      let (short, p) = stream.in_order (read_length left) n n' (b ∷ bytes) e in
      Took-step left buffer (b ∷ bytes) n n' _ _ p (ground arith)
        (h (b ∷ bytes) (not_empty b bytes))

  pub readn_loop-Took :
      (left : ℕ) (w : Acc ◌<◌ left) (buffer : List ℕ) (n : N)
      → Took left buffer n (readn_loop o fd left w buffer n).0 (readn_loop o fd left w buffer n).1
  unfolding readn_loop
  readn_loop-Took left (Acc.intro _ smaller) buffer n = elim (dec_lt 0 left) [
    | yes p ↦ rw (dif_pos _ le_prop p) (
        after_recv-Took left buffer n _ _ _ refl (λ bytes h.
          readn_loop-Took (left - length bytes) (smaller _ (shrinks left (length bytes) p h))
            (buffer ++ bytes) _))
    | no p ↦ rw (dif_neg _ p) (inr (refl, ([], sym (append-nil buffer), omega arith, refl)))
  ]

  -- What readn and recvMsg have answered: exactly the frame's payload, or a code that is not 0.
  abbrev pub Delivered : List ℕ → List ℕ → (ℤ × List ℕ) × N → Type 0
  Delivered payload rest r =
      (r.0.0 ≢ pos 0) ⊎ ((r.0.0 ≡ pos 0) × (r.0.1 ≡ payload) × (pending r.1 ≡ rest))

  pub readn-Delivered :
      (k : ℕ) (chunk rest : List ℕ) (n : N)
      → pending n ≡ chunk ++ rest
      → length chunk ≡ k
      → Delivered chunk rest (readn o fd k n)
  unfolding readn
  readn-Delivered k chunk rest n e h = go (readn_loop-Took k (lt_wf.apply k) [] n)
    where
      go :
          Took k [] n
            (readn_loop o fd k (lt_wf.apply k) [] n).0
            (readn_loop o fd k (lt_wf.apply k) [] n).1
          → Delivered chunk rest (readn_loop o fd k (lt_wf.apply k) [] n)
      go (inl bad) = inl bad
      go (inr (ok, (got_chunk, b, c, p))) =
          let (x, y) = append_cut got_chunk _ chunk rest (sym p ∙ e) (omega arith) in
          inr (ok, b ∙ x, y)

  -- The header has been read, or it has not.
  after_header :
      (header payload rest : List ℕ) (r : (ℤ × List ℕ) × N)
      → body_length header ≡ length payload
      → Delivered header (payload ++ rest) r
      → Delivered payload rest (read_payload o fd r.0 r.1)
  unfolding read_payload
  after_header header payload rest ((code, h), n) size (inl bad) =
      elim (Bool-cases (int_eq code (pos 0))) [
        | inl ok ↦ absurd (bad ((int_eq_iff code (pos 0)).0 ok))
        | inr other ↦ rw other (inl bad)
      ]
  after_header header payload rest ((code, h), n) size (inr (ok, e, p)) =
      rw (ok, e) (readn-Delivered (body_length header) payload rest n p (sym size))

  read_frame-Delivered :
      (header payload rest : List ℕ) (code : ℤ) (n : N)
      → length header ≡ 4
      → body_length header ≡ length payload
      → pending n ≡ header ++ (payload ++ rest)
      → Delivered payload rest (read_frame o fd code n)
  unfolding read_frame
  read_frame-Delivered header payload rest code n four size e =
      elim (Bool-cases (int_eq code (pos 0))) [
        | inl ok ↦ rw ok (
            after_header header payload rest (readn o fd 4 n) size
              (readn-Delivered 4 header (payload ++ rest) n e four))
        | inr other ↦ rw other (inl (λ e'. let x = (int_eq_iff code (pos 0)).1 e' in cc))
      ]

  recv_msg-Delivered :
      (header payload rest : List ℕ) (timeout : ℤ) (n : N)
      → length header ≡ 4
      → body_length header ≡ length payload
      → pending n ≡ header ++ (payload ++ rest)
      → Delivered payload rest (recv_msg o fd timeout n)
  unfolding recv_msg read_with_timeout
  recv_msg-Delivered header payload rest timeout n four size e =
      elim (Bool-cases (is_negative fd || is_negative timeout)) [
        | inl bad ↦ rw bad (inl (λ x. cc))
        | inr fine ↦ rw fine (
            read_frame-Delivered header payload rest _ _ four size
              (stream.select_keeps timeout n ∙ e))
      ]

  -- The payload has the length that its header says.
  pub recv_msg_sized :
      (payload rest : List ℕ) (timeout : ℤ) (n : N)
      → length payload < 2 ^ 31
      → pending n ≡ encode_length (length payload) ++ (payload ++ rest)
      → Delivered payload rest (recv_msg o fd timeout n)
  unfolding encode_length
  recv_msg_sized payload rest timeout n small e =
      let d = decode_length-encode_length (length payload) (omega arith) in
      recv_msg-Delivered (encode_length (length payload)) payload rest timeout n refl (ground arith)
        e

  -- A message that sendMsg frames, at the head of the stream: recvMsg answers 0 with exactly its
  -- payload and leaves what follows it, or it answers a code that is not 0.
  pub recv_msg_frame :
      (payload frame rest : List ℕ) (timeout : ℤ) (n : N)
      → length payload < 2 ^ 32
      → frame_of payload ≡ some frame
      → pending n ≡ frame ++ rest
      → Delivered payload rest (recv_msg o fd timeout n)
  unfolding frame_of
  recv_msg_frame payload frame rest timeout n small f e =
      let (short, framed) = frame_of_lem payload frame small f in
      recv_msg_sized payload rest timeout n short (
        e ∙ ap (λ x. x ++ rest) framed ∙ append_assoc (encode_length (length payload)) payload rest)

  -- A length of 2 ^ 31 or more is a negative int: recvMsg reads none of what follows it, and
  -- answers 0 with no bytes, as for an empty message.
  pub recv_msg_negative :
      (header rest : List ℕ) (timeout : ℤ) (n : N)
      → pending n ≡ header ++ rest
      → length header ≡ 4
      → 2 ^ 31 ≤ decode_length header
      → Delivered [] rest (recv_msg o fd timeout n)
  recv_msg_negative header rest timeout n e four big =
      recv_msg-Delivered header [] rest timeout n four (ground arith) e
