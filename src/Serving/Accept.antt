-- ===== src/Serving/Accept.antt =====
-- ServerOP.cpp, startServer on a readable listening socket, with addFd of EpollServer.cpp: the loop that
-- accepts connections. Every connection that it has opened is either watched or closed again.
use mathlib.Core.List.{append_assoc}
use encrypted_transmission_d.Prelude.{
  ℕ, zero, suc, Bool, true, false, Option, none, some, List, [], ◌∷◌, ◌++◌, ℤ, ◌<◌, ◌≡◌, refl, sym,
  ap, ◌∙◌, arith,
}

-- What accept answers: a descriptor, or -1 with EAGAIN or EWOULDBLOCK, or with another error.
pub data Accepted : Type 0 where
  accepted : ℤ → Accepted
  would_block failed : Accepted

-- The system calls of the loop: `add_fd` is epoll_ctl with EPOLL_CTL_ADD, true where it answers 0.
pub record Listener (H : Type 0) : Type 0 where
  pub accept : ℤ → H → Accepted × H
  pub add_fd : ℤ → H → Bool × H
  pub close : ℤ → H → H

module _ {H : Type 0} (l : Listener H) where
  unfoldable pub after_add : ℤ → Bool × H → (H → Option H) → Option H
  after_add client (true, h) next = next h
  after_add client (false, h) next = next (l.close client h)

  unfoldable pub after_accept : Accepted × H → (H → Option H) → Option H
  after_accept (accepted client, h) next = after_add client (l.add_fd client h) next
  after_accept (would_block, h) next = some h
  after_accept (failed, h) next = some h

  -- The `while (true)` loop; `none` is a lack of fuel.
  unfoldable pub accept_loop : ℕ → ℤ → H → Option H
  accept_loop zero fd h = none
  accept_loop (suc n) fd h = after_accept (l.accept fd h) (accept_loop n fd)

-- The descriptors of connections that are open, those of them in the epoll set, the latest first; and a
-- bound on the connections that accept still answers.
pub record IsListener {H : Type 0} (l : Listener H) (opened watched : H → List ℤ) (backlog : H → ℕ)
    : Type 0 where
  pub opens :
      (fd client : ℤ) (h h' : H)
      → l.accept fd h ≡ (accepted client, h')
      → (opened h' ≡ client ∷ opened h) × (watched h' ≡ watched h) × (suc (backlog h') ≡ backlog h)
  pub blocks :
      (fd : ℤ) (h h' : H)
      → l.accept fd h ≡ (would_block, h')
      → (opened h' ≡ opened h) × (watched h' ≡ watched h)
  pub fails :
      (fd : ℤ) (h h' : H)
      → l.accept fd h ≡ (failed, h')
      → (opened h' ≡ opened h) × (watched h' ≡ watched h)
  pub watches :
      (client : ℤ) (h h' : H)
      → l.add_fd client h ≡ (true, h')
      → (opened h' ≡ opened h) × (watched h' ≡ client ∷ watched h) × (backlog h' ≡ backlog h)
  pub refuses :
      (client : ℤ) (h h' : H)
      → l.add_fd client h ≡ (false, h')
      → (opened h' ≡ opened h) × (watched h' ≡ watched h) × (backlog h' ≡ backlog h)
  pub closes :
      (client : ℤ) (rest : List ℤ) (h : H)
      → opened h ≡ client ∷ rest
      → (opened (l.close client h) ≡ rest)
        × (watched (l.close client h) ≡ watched h)
        × (backlog (l.close client h) ≡ backlog h)

module _ {H : Type 0} (l : Listener H) (opened watched : H → List ℤ) (backlog : H → ℕ)
    (law : IsListener l opened watched backlog) where
  -- It has returned, the connections open are those watched, and those that were open still are.
  pub record Serves (h : H) (r : Option H) : Type 0 where
    pub left : H
    pub returned : r ≡ some left
    pub no_leak : opened left ≡ watched left
    pub accepted_since : List ℤ
    pub kept : opened left ≡ accepted_since ++ opened h

  -- From a later state, in which more have been accepted.
  from_later :
      (new : List ℤ) (h h' : H) (r : Option H)
      → opened h' ≡ new ++ opened h
      → Serves h' r
      → Serves h r
  from_later new h h' r more s = record {
    left = s.left;
    returned = s.returned;
    no_leak = s.no_leak;
    accepted_since = s.accepted_since ++ new;
    kept =
        s.kept
        ∙ ap (λ x. s.accepted_since ++ x) more
        ∙ sym (append_assoc s.accepted_since new (opened h));
  }

  -- The rest of the loop does so.
  abbrev Continues : ℕ → (H → Option H) → Type 0
  Continues n next = (h : H) → backlog h < n → opened h ≡ watched h → Serves h (next h)

  after_add-Serves :
      (n : ℕ) (client : ℤ) (h h' : H) (next : H → Option H) (r : Bool × H)
      → l.add_fd client h' ≡ r
      → opened h ≡ watched h
      → opened h' ≡ client ∷ opened h
      → watched h' ≡ watched h
      → backlog h' < n
      → Continues n next
      → Serves h (after_add l client r next)
  unfolding after_add
  after_add-Serves n client h h' next (true, h1) e same one others few continues =
      let (o, w, b) = law.watches client h' h1 e in
      from_later (client ∷ []) h h1 (next h1) (o ∙ one) (
        continues h1 (rw b few)
          (o ∙ one ∙ ap (λ x. client ∷ x) same ∙ sym (w ∙ ap (λ x. client ∷ x) others)))
  after_add-Serves n client h h' next (false, h1) e same one others few continues =
      let (o, w, b) = law.refuses client h' h1 e in
      let (o', w', b') = law.closes client (opened h) h1 (o ∙ one) in
      let h2 = l.close client h1 in
      from_later [] h h2 (next h2) o'
        (continues h2 (rw (b', b) few) (o' ∙ same ∙ sym (w' ∙ w ∙ others)))

  ended :
      (h h' : H)
      → opened h ≡ watched h
      → opened h' ≡ opened h
      → watched h' ≡ watched h
      → Serves h (some h')
  ended h h' same o w = record {
    left = h';
    returned = refl;
    no_leak = o ∙ same ∙ sym w;
    accepted_since = [];
    kept = o;
  }

  after_accept-Serves :
      (n : ℕ) (fd : ℤ) (h : H) (next : H → Option H) (r : Accepted × H)
      → l.accept fd h ≡ r
      → opened h ≡ watched h
      → backlog h < suc n
      → Continues n next
      → Serves h (after_accept l r next)
  unfolding after_accept
  after_accept-Serves n fd h next (accepted client, h') e same few continues =
      let (o, w, b) = law.opens fd client h h' e in
      after_add-Serves n client h h' next (l.add_fd client h') refl same o w (omega arith) continues
  after_accept-Serves n fd h next (would_block, h') e same few continues =
      let (o, w) = law.blocks fd h h' e in ended h h' same o w
  after_accept-Serves n fd h next (failed, h') e same few continues =
      let (o, w) = law.fails fd h h' e in ended h h' same o w

  -- The loop on a listening socket returns, with fuel for the connections that wait; every connection
  -- that it leaves open is watched, where that held before; and those that were open still are.
  pub accept_loop-Serves :
      (n : ℕ) (fd : ℤ) (h : H)
      → backlog h < n
      → opened h ≡ watched h
      → Serves h (accept_loop l n fd h)
  unfolding accept_loop
  accept_loop-Serves zero fd h few same = absurd (omega arith)
  accept_loop-Serves (suc n) fd h few same =
      after_accept-Serves n fd h (accept_loop l n fd) (l.accept fd h) refl same few
        (accept_loop-Serves n fd)
