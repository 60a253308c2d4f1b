-- ===== src/Tests/Wire.antt =====
-- A pipe that gives out what was sent to it, and a machine on a line with an input and an output.
use encrypted_transmission_d.Prelude.{
  ℕ, zero, suc, ◌<◌, true, List, [], ◌∷◌, ◌++◌, ℤ, pos, length, take, drop, length-take,
  take-append-drop, take_all, ◌≡◌, refl, sym, ap, arith,
}
use encrypted_transmission_d.Transport.{Network, got, wrote, ready, connected}
use encrypted_transmission_d.Transport.Reading.{IsStream}
use encrypted_transmission_d.Transport.Writing.{IsOutlet}
use encrypted_transmission_d.Transport.Live.{IsLive, HasBytes}

abbrev pub pipe : Network (List ℕ)
pipe = record {
  recv = λ fd k n. (got (take k n), drop k n);
  send = λ fd buffer n. (wrote (length buffer), n ++ buffer);
  select_read = λ fd t n. (ready, n);
  select_write = λ fd t n. (ready, n);
  socket = λ n. (pos 3, n);
  inet_pton = λ ip. true;
  connect = λ fd ip port n. (connected, n);
  socket_error = λ fd n. (pos 0, n);
  set_blocking = λ fd b n. (true, n);
  close = λ fd n. n;
  errno = λ n. pos 0;
  set_errno = λ e n. n;
}

pub pipe-IsStream : (fd : ℤ) → IsStream pipe fd (λ n. n)
pipe-IsStream fd = record {
  in_order = λ k n n' bytes e.
      let b : take k n ≡ bytes = cc in
      let m : drop k n ≡ n' = cc in
      (rw (← b) (length-take k n), rw (← b, ← m) (sym (take-append-drop k n)));
  select_keeps = λ t n. refl;
}

pub take-HasBytes : (k : ℕ) (n : List ℕ) → 0 < k → 0 < length n → HasBytes (got (take k n))
take-HasBytes zero n h l = absurd (omega arith)
take-HasBytes (suc k) [] h l = absurd (omega arith)
take-HasBytes (suc k) (x ∷ n) h l = tt

pub pipe-IsLive : (fd : ℤ) → IsLive pipe fd (λ n. n)
pipe-IsLive fd = record { gives = take-HasBytes; readable = λ t n. refl }

pub pipe-IsOutlet : (fd : ℤ) → IsOutlet pipe fd (λ n. n) (λ n. 0)
pipe-IsOutlet fd = record {
  takes = λ buffer n n' k e.
      let l : length buffer ≡ k = cc in
      let m : n ++ buffer ≡ n' = cc in
      (omega arith, rw (← l, ← m, take_all (length buffer) buffer (omega arith)) refl, omega arith);
  interrupts = λ buffer n n' e. absurd (cc);
  fails = λ buffer n n' e. absurd (cc);
  waits = λ t n. (refl, omega arith);
}

pub record Line : Type 0 where
  pub clock : ℕ
  pub input : List ℕ
  pub output : List ℕ

abbrev pub line : Network Line
line = record {
  recv = λ fd k n. (got (take k n.input), record n { input = drop k n.input });
  send = λ fd buffer n. (wrote (length buffer), record n { output = n.output ++ buffer });
  select_read = λ fd t n. (ready, n);
  select_write = λ fd t n. (ready, n);
  socket = λ n. (pos 3, n);
  inet_pton = λ ip. true;
  connect = λ fd ip port n. (connected, n);
  socket_error = λ fd n. (pos 0, n);
  set_blocking = λ fd b n. (true, n);
  close = λ fd n. n;
  errno = λ n. pos 0;
  set_errno = λ e n. n;
}

pub line-IsStream : (fd : ℤ) → IsStream line fd (λ n. n.input)
line-IsStream fd = record {
  in_order = λ k n n' bytes e.
      let b : take k n.input ≡ bytes = cc in
      let m : drop k n.input ≡ n'.input = ap (λ r. r.1.input) e in
      (rw (← b) (length-take k n.input), rw (← b, ← m) (sym (take-append-drop k n.input)));
  select_keeps = λ t n. refl;
}

pub line-IsLive : (fd : ℤ) → IsLive line fd (λ n. n.input)
line-IsLive fd = record { gives = λ k n. take-HasBytes k n.input; readable = λ t n. refl }

pub line-IsOutlet : (fd : ℤ) → IsOutlet line fd (λ n. n.output) (λ n. 0)
line-IsOutlet fd = record {
  takes = λ buffer n n' k e.
      let l : length buffer ≡ k = cc in
      let m : n.output ++ buffer ≡ n'.output = ap (λ r. r.1.output) e in
      (omega arith, rw (← l, ← m, take_all (length buffer) buffer (omega arith)) refl, omega arith);
  interrupts = λ buffer n n' e. absurd (cc);
  fails = λ buffer n n' e. absurd (cc);
  waits = λ t n. (refl, omega arith);
}
