-- ===== src/Transport/RoundTrip.antt =====
-- TcpSocket.cpp, sendMsg at one end and recvMsg at the other: a queue of messages.
use encrypted_transmission_d.Prelude.{
  ℕ, ◌+◌, ◌^◌, ◌<◌, List, [], ◌∷◌, ◌++◌, ℤ, pos, ◌≡◌, ◌≢◌, refl, sym, ap, ◌∙◌, ◌⊎◌, inl, inr,
  length, some, All,
}
use mathlib.Core.List.{append_assoc, append-nil}
use encrypted_transmission_d.Transport.{Network, recv_msg, send_msg, frame_of}
use encrypted_transmission_d.Transport.Bytes.{encode_length}
use encrypted_transmission_d.Transport.Reading.{IsStream, recv_msg_sized, frame_of_lem}
use encrypted_transmission_d.Transport.Writing.{IsOutlet, send_msg-Wrote, Wrote}

-- The bytes of messages that follow one another.
abbrev pub frames : List (List ℕ) → List ℕ
frames [] = []
frames (m ∷ ms) = encode_length (length m) ++ (m ++ frames ms)

frames-append :
    (ms : List (List ℕ)) (m : List ℕ)
    → frames (ms ++ (m ∷ [])) ≡ frames ms ++ (encode_length (length m) ++ m)
unfolding encode_length
frames-append [] m = ap (λ x. encode_length (length m) ++ x) (append-nil m)
frames-append (k ∷ ms) m =
    ap (λ x. encode_length (length k) ++ (k ++ x)) (frames-append ms m)
    ∙ ap (λ x. encode_length (length k) ++ x)
        (sym (append_assoc k (frames ms) (encode_length (length m) ++ m)))

All-append :
    (P : List ℕ → Type 0) (ms : List (List ℕ)) (m : List ℕ)
    → All P ms
    → P m
    → All P (ms ++ (m ∷ []))
All-append P [] m h p = (p, tt)
All-append P (k ∷ ms) m h p = (h.0, All-append P ms m h.1 p)

-- A connection from socket `a` to socket `b`: what `a` takes is what `b` gives out.
module _ {N : Type 0} (o : Network N) (a b : ℤ) (pending : N → List ℕ) (signals : N → ℕ)
    (outlet : IsOutlet o a pending signals) (stream : IsStream o b pending) where
  -- The messages that are under way.
  pub record Holds (ms : List (List ℕ)) (n : N) : Type 0 where
    pub under_way : pending n ≡ frames ms
    pub short : All (λ m. length m < 2 ^ 31) ms

  -- A message that sendMsg answers 0 for is the last of those under way.
  pub send_msg-Holds :
      (fuel : ℕ) (payload frame : List ℕ) (ms : List (List ℕ)) (timeout : ℤ) (n n' : N)
      → length payload < 2 ^ 32
      → frame_of payload ≡ some frame
      → length frame + signals n < fuel
      → Holds ms n
      → send_msg o a fuel payload timeout n ≡ some (pos 0, n')
      → Holds (ms ++ (payload ∷ [])) n'
  send_msg-Holds fuel payload frame ms timeout n n' small framed enough h sent =
      let (short, f) = frame_of_lem payload frame small framed in
      let w : Wrote o a pending signals outlet frame n (some (pos 0, n')) =
        rw sent at
          (send_msg-Wrote o a pending signals outlet fuel payload frame timeout n framed enough) in
      elim w [
        | inl (ok, p) ↦ record {
          under_way =
              p
              ∙ ap (λ x. x ++ frame) h.under_way
              ∙ ap (λ x. frames ms ++ x) f
              ∙ sym (frames-append ms payload);
          short = All-append _ ms payload h.short short;
        }
        | inr (bad, p) ↦ absurd (bad refl)
      ]

  -- recvMsg answers 0 with the first of the messages under way and leaves the others, or it answers
  -- a code that is not 0.
  pub recv_msg-Holds :
      (m : List ℕ) (ms : List (List ℕ)) (timeout : ℤ) (n : N)
      → Holds (m ∷ ms) n
      → ((recv_msg o b timeout n).0.0 ≢ pos 0)
        ⊎ (((recv_msg o b timeout n).0 ≡ (pos 0, m)) × Holds ms (recv_msg o b timeout n).1)
  recv_msg-Holds m ms timeout n h =
      elim (recv_msg_sized o b pending stream m (frames ms) timeout n h.short.0 h.under_way) [
        | inl bad ↦ inl bad
        | inr (ok, e, p) ↦ inr (cc, record { under_way = p; short = h.short.1 })
      ]
