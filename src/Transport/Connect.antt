-- ===== src/Transport/Connect.antt =====
-- TcpSocket.cpp, connectToHost and connectTimeout: a connect that does not block, and a wait for it.
use encrypted_transmission_d.Prelude.{
  refl, ◌∙◌, ℕ, String, Bool, true, false, not, ◌&&◌, ◌||◌, ℤ, pos, int_eq, is_negative, ltb, eqb,
  ◌≡◌, inl, inr, Bool-cases, if◌then◌else◌,
}
use encrypted_transmission_d.Transport.{
  Network, Net, return, ◌>>=◌, Ready, ready, timed_out, select_failed, Connecting, connected,
  in_progress, connect_failed, param_error, timeout_error, failure, etimedout,
}

module _ {N : Type 0} (o : Network N) (fd : ℤ) where
  abbrev pub put_errno : ℤ → Net N (Unit {0})
  put_errno e n = (tt, o.set_errno e n)

  -- connectTimeout once select has answered.
  unfoldable pub finish_connect : Ready → Net N ℤ
  finish_connect select_failed = do _ ← o.set_blocking fd true; return failure
  finish_connect timed_out = do
    _ ← o.set_blocking fd true
    _ ← put_errno etimedout
    return timeout_error
  finish_connect ready = do
    opt ← o.socket_error fd
    _ ← o.set_blocking fd true
    if int_eq opt (pos 0) then return (pos 0) else (do _ ← put_errno opt; return failure)

  unfoldable pub await_connect : ℤ → Connecting → Net N ℤ
  await_connect seconds connected = do _ ← o.set_blocking fd true; return (pos 0)
  await_connect seconds connect_failed = do _ ← o.set_blocking fd true; return failure
  await_connect seconds in_progress = do r ← o.select_write fd seconds; finish_connect r

  unfoldable pub connect_timeout : String → ℕ → ℤ → Net N ℤ
  connect_timeout ip port seconds = do
    set ← o.set_blocking fd false
    if set then o.connect fd ip port >>= await_connect seconds else return failure

  -- connectToHost after connectTimeout; the last test is of an errno that a timeout leaves.
  unfoldable pub report_connect : ℤ → Net N ℤ
  report_connect code n =
      if is_negative code
      then (
        if int_eq code failure && int_eq (o.errno n) etimedout then timeout_error else o.errno n,
        n,
      )
      else (code, n)

module _ {N : Type 0} (o : Network N) where
  unfoldable pub connect_socket : String → ℕ → ℤ → ℤ → Net N (ℤ × ℤ)
  connect_socket ip port timeout fd =
      if is_negative fd
      then (λ n. ((o.errno n, fd), n))
      else if not (o.inet_pton ip)
      then return (param_error, fd)
      else (do
        code ← connect_timeout o fd ip port timeout
        reported ← report_connect o fd code
        return (reported, fd))

  -- The code, and the descriptor that the object then holds.
  unfoldable pub connect_to_host : String → ℕ → ℤ → ℤ → Net N (ℤ × ℤ)
  connect_to_host ip port timeout fd =
      if eqb port 0 || ltb 65535 port || is_negative timeout
      then return (param_error, fd)
      else o.socket >>= connect_socket ip port timeout

-- fcntl sets the mode of the socket where it succeeds, and leaves it where it fails; errno is no part
-- of it.
pub record SetsMode {N : Type 0} (o : Network N) (fd : ℤ) (blocking : N → Bool) : Type 0 where
  pub sets :
      (b : Bool) (n : N) → (o.set_blocking fd b n).0 ≡ true → blocking (o.set_blocking fd b n).1 ≡ b
  pub leaves :
      (b : Bool) (n : N)
      → (o.set_blocking fd b n).0 ≡ false
      → blocking (o.set_blocking fd b n).1 ≡ blocking n
  pub errno_apart : (e : ℤ) (n : N) → blocking (o.set_errno e n) ≡ blocking n

module _ {N : Type 0} (o : Network N) (fd : ℤ) (blocking : N → Bool)
    (mode : SetsMode o fd blocking) where
  -- The mode that a call of setBlock in the state leaves, whatever it answers: blocking, if it answers
  -- success, and that of the state, if not.
  abbrev pub mode_after : N → Bool
  mode_after m = (o.set_blocking fd true m).0 || blocking m

  -- setBlock has been called once, and nothing after it has changed the mode.
  abbrev pub IsRestored : N → Type 0
  IsRestored n = (m : N) × (blocking n ≡ mode_after m)

  set_block-mode : (m : N) → blocking (o.set_blocking fd true m).1 ≡ mode_after m
  set_block-mode m = elim (Bool-cases (o.set_blocking fd true m).0) [
    | inl ok ↦ rw ok (mode.sets true m ok)
    | inr bad ↦ rw bad (mode.leaves true m bad)
  ]

  finish_connect-IsRestored : (r : Ready) (n : N) → IsRestored (finish_connect o fd r n).1
  unfolding finish_connect
  finish_connect-IsRestored select_failed n = (n, set_block-mode n)
  finish_connect-IsRestored timed_out n = (n, mode.errno_apart etimedout _ ∙ set_block-mode n)
  finish_connect-IsRestored ready n = elim (Bool-cases (int_eq (o.socket_error fd n).0 (pos 0))) [
    | inl ok ↦ rw ok (_, set_block-mode _)
    | inr bad ↦ rw bad (_, mode.errno_apart _ _ ∙ set_block-mode _)
  ]

  await_connect-IsRestored :
      (seconds : ℤ) (r : Connecting) (n : N) → IsRestored (await_connect o fd seconds r n).1
  unfolding await_connect
  await_connect-IsRestored seconds connected n = (n, set_block-mode n)
  await_connect-IsRestored seconds connect_failed n = (n, set_block-mode n)
  await_connect-IsRestored seconds in_progress n = finish_connect-IsRestored _ _

  -- Where fcntl never fails to put the socket back in blocking mode, connectTimeout leaves it blocking
  -- on every path that has taken it out of it: connected at once, refused, failed in select, timed
  -- out, and connected or refused later; and where the first fcntl fails, it leaves the mode as it was.
  pub connect_timeout-blocking :
      (ip : String) (port : ℕ) (seconds : ℤ) (n : N)
      → ((m : N) → (o.set_blocking fd true m).0 ≡ true)
      → blocking (connect_timeout o fd ip port seconds n).1
        ≡ ((o.set_blocking fd false n).0 || blocking n)
  unfolding connect_timeout
  connect_timeout-blocking ip port seconds n restores =
      elim (Bool-cases (o.set_blocking fd false n).0) [
        | inl ok ↦
            let (m, e) =
              await_connect-IsRestored seconds
                (o.connect fd ip port (o.set_blocking fd false n).1).0
                (o.connect fd ip port (o.set_blocking fd false n).1).1 in
            rw ok (e ∙ rw (restores m) refl)
        | inr bad ↦ rw bad (mode.leaves false n bad)
      ]
