-- ===== src/Transport/Bounds.antt =====
-- TcpSocket.cpp, readn: its buffer of 1024 bytes.
use encrypted_transmission_d.Prelude.{
  ℕ, ◌-◌, ◌≤◌, ◌<◌, List, [], ◌∷◌, ◌++◌, ℤ, ◌≡◌, refl, length, arith, dec_lt, lt_wf, le_prop,
}
use mathlib.Core.Logic.{dif_pos, dif_neg}
use mathlib.Core.WellFounded.{Acc}
use encrypted_transmission_d.Transport.{
  Network, Net, Received, got, recv_failed, read_length, after_recv, readn_loop, readn, shrinks,
  not_empty,
}

module _ {N : Type 0} (o o' : Network N) (fd : ℤ)
    (agree : (k : ℕ) (n : N) → k ≤ 1024 → o.recv fd k n ≡ o'.recv fd k n) where
  after_recv_agrees :
      (buffer : List ℕ) (r : Received) (n : N)
      (more more' : (bytes : List ℕ) → 0 < length bytes → Net N (ℤ × List ℕ))
      → ((bytes : List ℕ) (h : 0 < length bytes) (m : N) → more bytes h m ≡ more' bytes h m)
      → after_recv o fd buffer r n more ≡ after_recv o' fd buffer r n more'
  unfolding after_recv
  after_recv_agrees buffer recv_failed n more more' e = refl
  after_recv_agrees buffer (got []) n more more' e = refl
  after_recv_agrees buffer (got (b ∷ bytes)) n more more' e = e (b ∷ bytes) (not_empty b bytes) n

  readn_loop_agrees :
      (left : ℕ) (w : Acc ◌<◌ left) (buffer : List ℕ) (n : N)
      → readn_loop o fd left w buffer n ≡ readn_loop o' fd left w buffer n
  unfolding readn_loop
  readn_loop_agrees left (Acc.intro _ smaller) buffer n = elim (dec_lt 0 left) [
    | yes p ↦
        rw (dif_pos _ le_prop p, dif_pos _ le_prop p, agree (read_length left) n (ground arith))
          (after_recv_agrees buffer _ _ _ _ (λ bytes h m.
            readn_loop_agrees (left - length bytes) (smaller _ (shrinks left (length bytes) p h))
              (buffer ++ bytes) m))
    | no p ↦ rw (dif_neg _ p, dif_neg _ p) refl
  ]

  -- However long the message, readn asks recv for at most the 1024 bytes that its buffer holds.
  pub readn_buffer : (len : ℕ) (n : N) → readn o fd len n ≡ readn o' fd len n
  unfolding readn
  readn_buffer len n = readn_loop_agrees len (lt_wf.apply len) [] n
