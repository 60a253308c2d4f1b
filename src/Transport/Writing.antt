-- ===== src/Transport/Writing.antt =====
-- TcpSocket.cpp, writen and sendMsg: what reaches the peer, and that the loop ends.
use encrypted_transmission_d.Prelude.{
  ℕ, zero, suc, ◌+◌, ◌≤◌, ◌<◌, Bool, true, false, List, [], ◌∷◌, ◌++◌, ℤ, pos, ◌≡◌, ◌≢◌, refl, sym,
  ap, ◌∙◌, ◌⊎◌, inl, inr, length, length-drop, take-append-drop, drop, take, take-append-take-drop,
  int_eq, int_eq_iff, is_negative, ◌||◌, arith, Bool-cases, if◌then◌else◌, Option, none, some,
}
use mathlib.Core.List.{append_assoc, append-nil}
use encrypted_transmission_d.Transport.Bytes.{encode_length}
use encrypted_transmission_d.Prelude.{ltb, length-append, length-take, ◌-◌, ◌%◌, ◌^◌}
use encrypted_transmission_d.Transport.{
  Network, Sent, wrote, interrupted, send_failed, after_send, writen_loop, writen, report_write,
  write_frame, write_with_timeout, send_msg, frame_of, syscall_error, timeout_error,
}

pub length-frame :
    (payload frame : List ℕ) → frame_of payload ≡ some frame → length frame ≤ 4 + length payload
unfolding frame_of encode_length
length-frame payload frame e = elim (Bool-cases (ltb (length payload % 2 ^ 32) (2 ^ 31 - 4))) [
  | inl fits ↦
      let e' = rw fits at e in
      let same : encode_length (length payload % 2 ^ 32) ++ take (length payload % 2 ^ 32) payload
          ≡ frame =
        cc in
      omega (
        arith,
        ap length same,
        length-append (encode_length (length payload % 2 ^ 32))
            (take (length payload % 2 ^ 32) payload),
        length-take (length payload % 2 ^ 32) payload,
      )
  | inr long ↦ absurd (let e' = rw long at e in cc)
]

-- The bytes that the socket has taken for the peer. send takes the beginning of its buffer, an
-- interrupted call takes nothing, and `signals` bounds the signals that may still interrupt it.
pub record IsOutlet {N : Type 0} (o : Network N) (fd : ℤ) (sent : N → List ℕ) (signals : N → ℕ)
    : Type 0 where
  pub takes :
      (buffer : List ℕ) (n n' : N) (k : ℕ)
      → o.send fd buffer n ≡ (wrote k, n')
      → (k ≤ length buffer) × (sent n' ≡ sent n ++ take k buffer) × (signals n' ≤ signals n)
  pub interrupts :
      (buffer : List ℕ) (n n' : N)
      → o.send fd buffer n ≡ (interrupted, n')
      → (sent n' ≡ sent n) × (signals n' < signals n)
  pub fails :
      (buffer : List ℕ) (n n' : N) → o.send fd buffer n ≡ (send_failed, n') → sent n' ≡ sent n
  pub waits :
      (t : ℤ) (n : N)
      → (sent (o.select_write fd t n).1 ≡ sent n) × (signals (o.select_write fd t n).1 ≤ signals n)

module _ {N : Type 0} (o : Network N) (fd : ℤ) (sent : N → List ℕ) (signals : N → ℕ)
    (outlet : IsOutlet o fd sent signals) where
  -- The call has returned: 0, and the peer gets the whole buffer, or another code, and it gets the
  -- beginning of it.
  abbrev pub Wrote : List ℕ → N → Option (ℤ × N) → Type 0
  Wrote buffer n none = ⊥
  Wrote buffer n (some (code, n')) =
      ((code ≡ pos 0) × (sent n' ≡ sent n ++ buffer))
      ⊎ ((code ≢ pos 0) × ((k : ℕ) × (sent n' ≡ sent n ++ take k buffer)))

  Wrote-step :
      (buffer : List ℕ) (k : ℕ) (n n' : N) (r : Option (ℤ × N))
      → sent n' ≡ sent n ++ take k buffer
      → Wrote (drop k buffer) n' r
      → Wrote buffer n r
  Wrote-step buffer k n n' none e h = h
  Wrote-step buffer k n n' (some (code, n'')) e (inl (ok, p)) = inl (
    ok,
    p
        ∙ ap (λ x. x ++ drop k buffer) e
        ∙ append_assoc (sent n) (take k buffer) (drop k buffer)
        ∙ ap (λ x. sent n ++ x) (take-append-drop k buffer),
  )
  Wrote-step buffer k n n' (some (code, n'')) e (inr (bad, (m, p))) = inr (
    bad,
    (
      k + m,
      p
          ∙ ap (λ x. x ++ take m (drop k buffer)) e
          ∙ append_assoc (sent n) (take k buffer) (take m (drop k buffer))
          ∙ ap (λ x. sent n ++ x) (take-append-take-drop k m buffer),
    ),
  )

  after_send-Wrote :
      (b : ℕ) (buffer : List ℕ) (fuel : ℕ) (n n' : N) (r : Sent)
      (more : List ℕ → N → Option (ℤ × N))
      → o.send fd (b ∷ buffer) n ≡ (r, n')
      → length (b ∷ buffer) + signals n < suc fuel
      → ((rest : List ℕ) (m : N) → length rest + signals m < fuel → Wrote rest m (more rest m))
      → Wrote (b ∷ buffer) n (after_send o fd (b ∷ buffer) r n' more)
  unfolding after_send
  after_send-Wrote b buffer fuel n n' (wrote zero) more e h next =
      let (k, p, s) = outlet.takes (b ∷ buffer) n n' 0 e in inr (λ x. cc, (0, p))
  after_send-Wrote b buffer fuel n n' (wrote (suc k)) more e h next =
      let (short, p, s) = outlet.takes (b ∷ buffer) n n' (suc k) e in
      Wrote-step (b ∷ buffer) (suc k) n n' _ p
        (next (drop (suc k) (b ∷ buffer)) n' (omega (arith, length-drop k buffer)))
  after_send-Wrote b buffer fuel n n' interrupted more e h next =
      let (p, s) = outlet.interrupts (b ∷ buffer) n n' e in
      Wrote-step (b ∷ buffer) 0 n n' _ (p ∙ sym (append-nil (sent n)))
        (next (b ∷ buffer) n' (omega arith))
  after_send-Wrote b buffer fuel n n' send_failed more e h next =
      inr (λ x. cc, (0, outlet.fails (b ∷ buffer) n n' e ∙ sym (append-nil (sent n))))

  -- With fuel for the bytes and for the signals, writen returns.
  pub writen_loop-Wrote :
      (fuel : ℕ) (buffer : List ℕ) (n : N)
      → length buffer + signals n < fuel
      → Wrote buffer n (writen_loop o fd fuel buffer n)
  unfolding writen_loop
  writen_loop-Wrote zero buffer n h = absurd (omega arith)
  writen_loop-Wrote (suc fuel) [] n h = inl (refl, sym (append-nil (sent n)))
  writen_loop-Wrote (suc fuel) (b ∷ buffer) n h =
      after_send-Wrote b buffer fuel n _ _ (writen_loop o fd fuel) refl h (writen_loop-Wrote fuel)

  report_write-Wrote :
      (frame : List ℕ) (n : N) (r : Option (ℤ × N))
      → Wrote frame n r
      → Wrote frame n (report_write o fd r)
  unfolding report_write
  report_write-Wrote frame n none h = h
  report_write-Wrote frame n (some (code, n')) (inl (ok, p)) = rw ok (inl (refl, p))
  report_write-Wrote frame n (some (code, n')) (inr (bad, p)) =
      elim (Bool-cases (int_eq code (pos 0))) [
        | inl ok ↦ absurd (bad ((int_eq_iff code (pos 0)).0 ok))
        | inr other ↦ rw other (inr (λ x. cc, p))
      ]

  write_failed :
      (a b : Bool)
      → (if a then syscall_error else if b then timeout_error else syscall_error) ≢ pos 0
  write_failed true b x = cc
  write_failed false true x = cc
  write_failed false false x = cc

  write_frame-Wrote :
      (fuel : ℕ) (frame : List ℕ) (n n' : N) (code : ℤ)
      → sent n' ≡ sent n
      → length frame + signals n' < fuel
      → Wrote frame n (write_frame o fd fuel frame (code, n'))
  unfolding write_frame writen
  write_frame-Wrote fuel frame n n' code e h = elim (Bool-cases (int_eq code (pos 0))) [
    | inl ok ↦ rw ok (
        report_write-Wrote frame n _ (
          Wrote-step frame 0 n n' _ (e ∙ sym (append-nil (sent n)))
            (writen_loop-Wrote fuel frame n' h)))
    | inr other ↦ rw other (inr (write_failed _ _, (0, e ∙ sym (append-nil (sent n)))))
  ]

  -- With fuel for the frame and for the signals, sendMsg returns: 0, and the peer gets the whole
  -- frame, or another code, and it gets the beginning of it.
  pub send_msg-Wrote :
      (fuel : ℕ) (payload frame : List ℕ) (timeout : ℤ) (n : N)
      → frame_of payload ≡ some frame
      → length frame + signals n < fuel
      → Wrote frame n (send_msg o fd fuel payload timeout n)
  unfolding send_msg write_with_timeout
  send_msg-Wrote fuel payload frame timeout n framed h =
      elim (Bool-cases (is_negative fd || is_negative timeout)) [
        | inl bad ↦ rw bad (inr (λ x. cc, (0, sym (append-nil (sent n)))))
        | inr fine ↦
            let (e, s) = outlet.waits timeout n in
            rw (fine, framed) (write_frame-Wrote fuel frame n _ _ e (omega arith))
      ]
