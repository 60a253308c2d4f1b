-- ===== src/Client/Rules.antt =====
-- ClientOP.cpp and MessageClient.cpp: what an exchange with the server leaves alone.
use encrypted_transmission_d.Prelude.{
  ℕ, Option, none, some, List, ℤ, pos, negsuc, int_eq, ◌+◌, ◌<◌, length, arith, ◌≡◌, refl, ◌∙◌, inl,
  inr, Bool-cases, Option-cases,
}
use encrypted_transmission_d.Transport.{Network, frame_of, send_msg}
use encrypted_transmission_d.Transport.Connect.{connect_to_host}
use encrypted_transmission_d.Transport.Writing.{IsOutlet, send_msg-Wrote, length-frame}
use encrypted_transmission_d.Client.Base.{
  ClientInfo, Process, Client, then_run, put_host, Exchanged, send_request, receive_reply,
  after_send, after_connect, converse,
}

abbrev pub EndsAt :
    {H A : Type 0} → Type 0 → Option (A × Process H) → (A → Process H → Type 0) → Type 0
EndsAt Throws none Q = Throws
EndsAt Throws (some (a, w)) Q = Q a w

-- The call returns, and the result is as said; or it does not, and then `Throws` holds.
pub record Ends {H A : Type 0} (Throws : Type 0) (r : Option (A × Process H))
    (Q : A → Process H → Type 0) : Type 0 where
  pub at : EndsAt Throws r Q

pub Ends-then :
    {H A B : Type 0} {T : Type 0} (r : Option (A × Process H)) (f : A → Client H B)
    (P : A → Process H → Type 0) (Q : B → Process H → Type 0)
    → Ends T r P
    → ((a : A) (w : Process H) → P a w → Ends T (f a w) Q)
    → Ends T (then_run f r) Q
unfolding then_run
Ends-then none f P Q h k = record { at = h.at }
Ends-then (some (a, w)) f P Q h k = k a w h.at

pub Ends-mono :
    {H A : Type 0} {T : Type 0} (r : Option (A × Process H)) (P Q : A → Process H → Type 0)
    → Ends T r P
    → ((a : A) (w : Process H) → P a w → Q a w)
    → Ends T r Q
Ends-mono none P Q h k = record { at = h.at }
Ends-mono (some (a, w)) P Q h k = record { at = k a w h.at }

pub Ends-throws :
    {H A : Type 0} {T U : Type 0} {Q : A → Process H → Type 0} (r : Option (A × Process H))
    → (T → U)
    → Ends T r Q
    → Ends U r Q
Ends-throws none f h = record { at = f h.at }
Ends-throws (some (a, w)) f h = record { at = h.at }

-- A call that returns, returns what it returns.
pub Ends-returns :
    {H A : Type 0} {T : Type 0} (r : Option (A × Process H)) (P : A → Process H → Type 0)
    → Ends T r P
    → Ends T r (λ a w. P a w × (r ≡ some (a, w)))
Ends-returns none P h = record { at = h.at }
Ends-returns (some (a, w)) P h = record { at = (h.at, refl) }

-- The parts of the client's state that the network does not touch.
pub record Keeps {H : Type 0} (w w' : Process H) : Type 0 where
  pub slots : w'.slots ≡ w.slots
  pub last : w'.last_server_message_id ≡ w.last_server_message_id

pub Keeps-trans : {H : Type 0} {u v w : Process H} → Keeps u v → Keeps v w → Keeps u w
Keeps-trans a b = record { slots = b.slots ∙ a.slots; last = b.last ∙ a.last }

-- A network on which every socket takes bytes as the outlets do.
pub record IsWired {H : Type 0} (net : Network H) (signals : H → ℕ) : Type 0 where
  pub sent : ℤ → H → List ℕ
  pub outlet : (fd : ℤ) → IsOutlet net fd (sent fd) signals

-- What comes of the exchange of a request that starts in the state: the connection, the request and
-- the reply.
abbrev pub exchange_at :
    {H : Type 0}
    → Network H
    → (H → ℕ)
    → ClientInfo
    → List ℕ
    → Process H
    → Option (Exchanged × Process H)
exchange_at net signals info request w =
    let socket = connect_to_host net info.ip info.port (pos 10) (negsuc 0) w.host in
    after_connect net signals request socket.0 (record w { host = socket.1 })

module _ {H : Type 0} (net : Network H) (signals : H → ℕ) (wired : IsWired net signals) where
  send_returns :
      (fd : ℤ) (request : List ℕ) (h : H) (fuel : ℕ)
      → 4 + length request + signals h < fuel
      → send_msg net fd fuel request (pos 10) h ≡ none
      → frame_of request ≡ none
  send_returns fd request h fuel enough e = elim (Option-cases (frame_of request)) [
    | inl long ↦ long
    | inr (frame, f) ↦ absurd (
        rw e at (
          send_msg-Wrote net fd (wired.sent fd) signals (wired.outlet fd) fuel request frame
            (pos 10) h f (omega (arith, length-frame request frame f))))
  ]

  put_host-Keeps :
      {T : Type 0} (w : Process H) (r : Option (ℤ × H))
      → (r ≡ none → T)
      → Ends T (put_host w r) (λ code w'. Keeps w w')
  unfolding put_host
  put_host-Keeps w none h = record { at = h refl }
  put_host-Keeps w (some (code, host)) h = record { at = record { slots = refl; last = refl } }

  send_request-Keeps :
      (fd : ℤ) (request : List ℕ) (w : Process H)
      → Ends
          (frame_of request ≡ none)
          (send_request net signals fd request w)
          (λ code w'. Keeps w w')
  unfolding send_request
  send_request-Keeps fd request w =
      put_host-Keeps w _ (send_returns fd request w.host _ (omega arith))

  after_send-Keeps :
      {T : Type 0} (fd code : ℤ) (w : Process H)
      → Ends T (after_send net signals fd code w) (λ ex w'. Keeps w w')
  unfolding after_send receive_reply then_run
  after_send-Keeps fd code w = elim (Bool-cases (int_eq code (pos 0))) [
    | inl ok ↦ rw ok (record { at = record { slots = refl; last = refl } })
    | inr bad ↦ rw bad (record { at = record { slots = refl; last = refl } })
  ]

  after_connect-Keeps :
      (request : List ℕ) (code fd : ℤ) (w : Process H)
      → Ends
          (frame_of request ≡ none)
          (after_connect net signals request (code, fd) w)
          (λ ex w'. Keeps w w')
  unfolding after_connect
  after_connect-Keeps request code fd w = elim (Bool-cases (int_eq code (pos 0))) [
    | inl ok ↦ rw ok (
        Ends-then (send_request net signals fd request w) (after_send net signals fd) _ _
          (send_request-Keeps fd request w)
          (λ c w' k. Ends-mono _ _ _ (after_send-Keeps fd c w') (λ ex w'' k'. Keeps-trans k k')))
    | inr bad ↦ rw bad (record { at = record { slots = refl; last = refl } })
  ]

  -- What the rest of a function does to the cache, with what the exchange came to, the function does.
  pub converse-Answers :
      {A : Type 0} (info : ClientInfo) (request : List ℕ) (rest : Exchanged → Client H A)
      (w : Process H) (Q : A → Process H → Type 0)
      → ((a : A) (u v : Process H) → Keeps u v → Q a u → Q a v)
      → ((ex : Exchanged) (w' : Process H)
          → exchange_at net signals info request w ≡ some (ex, w')
          → Keeps w w'
          → Ends (frame_of request ≡ none) (rest ex w') Q)
      → Ends (frame_of request ≡ none) (converse net signals info request rest w) Q
  unfolding converse then_run
  converse-Answers info request rest w Q stable h =
      Ends-then (after_connect net signals request socket.0 w1) _
        (λ ex w'. Keeps w w' × (after_connect net signals request socket.0 w1 ≡ some (ex, w'))) Q
        (Ends-returns _ _ (
          Ends-mono _ _ _ (after_connect-Keeps request socket.0.0 socket.0.1 w1)
            (λ ex w' k. record { slots = k.slots; last = k.last })))
        (λ ex w' k.
          Ends-then (rest ex w') _ Q Q (h ex w' k.1 k.0)
            (λ a u q. record { at = stable a u _ (record { slots = refl; last = refl }) q }))
    where
      socket : (ℤ × ℤ) × H
      socket = connect_to_host net info.ip info.port (pos 10) (negsuc 0) w.host

      w1 : Process H
      w1 = record w { host = socket.1 }

  -- The same, whatever the exchange came to.
  pub converse-Ends :
      {A : Type 0} (info : ClientInfo) (request : List ℕ) (rest : Exchanged → Client H A)
      (w : Process H) (Q : A → Process H → Type 0)
      → ((a : A) (u v : Process H) → Keeps u v → Q a u → Q a v)
      → ((ex : Exchanged) (w' : Process H)
          → Keeps w w'
          → Ends (frame_of request ≡ none) (rest ex w') Q)
      → Ends (frame_of request ≡ none) (converse net signals info request rest w) Q
  converse-Ends info request rest w Q stable h =
      converse-Answers info request rest w Q stable (λ ex w' came. h ex w')
