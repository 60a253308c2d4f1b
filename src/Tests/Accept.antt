-- ===== src/Tests/Accept.antt =====
-- A run of the theorem on the accept loop: three connections wait, and epoll refuses one of them.
use encrypted_transmission_d.Prelude.{
  suc, Bool, true, false, List, [], ◌∷◌, ℤ, pos, int_eq, length, ◌≡◌, refl, sym, ap, ◌∙◌, inl, inr,
  arith, Bool-cases, if◌then◌else◌,
}
use encrypted_transmission_d.Serving.Accept.{
  Accepted, accepted, would_block, failed, Listener, IsListener, Serves, accept_loop,
  accept_loop-Serves,
}

record Door : Type 0 where
  queue : List ℤ
  inside : List ℤ
  seen : List ℤ

unfoldable take_one : List ℤ → Door → Accepted × Door
take_one [] h = (would_block, h)
take_one (x ∷ xs) h = (accepted x, record h { queue = xs; inside = x ∷ h.inside })

unfoldable watch : ℤ → Door → Bool × Door
watch x h = if int_eq x (pos 6) then (false, h) else (true, record h { seen = x ∷ h.seen })

unfoldable rest_of : List ℤ → List ℤ
rest_of [] = []
rest_of (x ∷ xs) = xs

abbrev door : Listener Door
door = record {
  accept = λ fd h. take_one h.queue h;
  add_fd = watch;
  close = λ x h. record h { inside = rest_of h.inside };
}

take_one-opens :
    (queue : List ℤ) (client : ℤ) (h h' : Door)
    → h.queue ≡ queue
    → take_one queue h ≡ (accepted client, h')
    → (h'.inside ≡ client ∷ h.inside)
      × (h'.seen ≡ h.seen)
      × (suc (length h'.queue) ≡ length h.queue)
unfolding take_one
take_one-opens [] client h h' q e = absurd cc
take_one-opens (x ∷ xs) client h h' q e =
    let same : x ≡ client = cc in
    let after : record h { queue = xs; inside = x ∷ h.inside } ≡ h' = cc in
    (
      sym (ap (λ (d : Door). d.inside) after) ∙ ap (λ y. y ∷ h.inside) same,
      sym (ap (λ (d : Door). d.seen) after),
      ap suc (ap length (sym (ap (λ (d : Door). d.queue) after))) ∙ sym (rw (q, length) refl),
    )

take_one-blocks :
    (queue : List ℤ) (h h' : Door)
    → take_one queue h ≡ (would_block, h')
    → (h'.inside ≡ h.inside) × (h'.seen ≡ h.seen)
unfolding take_one
take_one-blocks [] h h' e =
    let after : h ≡ h' = cc in
    (sym (ap (λ (d : Door). d.inside) after), sym (ap (λ (d : Door). d.seen) after))
take_one-blocks (x ∷ xs) h h' e = absurd cc

take_one-fails :
    (queue : List ℤ) (h h' : Door)
    → take_one queue h ≡ (failed, h')
    → (h'.inside ≡ h.inside) × (h'.seen ≡ h.seen)
unfolding take_one
take_one-fails [] h h' e = absurd cc
take_one-fails (x ∷ xs) h h' e = absurd cc

watch-true :
    (x : ℤ) (h h' : Door)
    → watch x h ≡ (true, h')
    → (h'.inside ≡ h.inside) × (h'.seen ≡ x ∷ h.seen) × (length h'.queue ≡ length h.queue)
unfolding watch
watch-true x h h' e = elim (Bool-cases (int_eq x (pos 6))) [
  | inl six ↦ absurd (let e' = rw six at e in cc)
  | inr other ↦
      let e' = rw other at e in
      let after : record h { seen = x ∷ h.seen } ≡ h' = cc in
      (
        sym (ap (λ (d : Door). d.inside) after),
        sym (ap (λ (d : Door). d.seen) after),
        ap length (sym (ap (λ (d : Door). d.queue) after)),
      )
]

watch-false :
    (x : ℤ) (h h' : Door)
    → watch x h ≡ (false, h')
    → (h'.inside ≡ h.inside) × (h'.seen ≡ h.seen) × (length h'.queue ≡ length h.queue)
unfolding watch
watch-false x h h' e = elim (Bool-cases (int_eq x (pos 6))) [
  | inr other ↦ absurd (let e' = rw other at e in cc)
  | inl six ↦
      let e' = rw six at e in
      let after : h ≡ h' = cc in
      (
        sym (ap (λ (d : Door). d.inside) after),
        sym (ap (λ (d : Door). d.seen) after),
        ap length (sym (ap (λ (d : Door). d.queue) after)),
      )
]

door-IsListener : IsListener door (λ h. h.inside) (λ h. h.seen) (λ h. length h.queue)
unfolding rest_of
door-IsListener = record {
  opens = λ fd client h h' e. take_one-opens h.queue client h h' refl e;
  blocks = λ fd h h' e. take_one-blocks h.queue h h' e;
  fails = λ fd h h' e. take_one-fails h.queue h h' e;
  watches = watch-true;
  refuses = watch-false;
  closes = λ x rest h e. (ap rest_of e, refl, refl);
}

abbrev three : Door
three = record { queue = pos 5 ∷ pos 6 ∷ pos 7 ∷ []; inside = pos 4 ∷ []; seen = pos 4 ∷ [] }

accept_loop-Serves_example :
    Serves door
      (λ h. h.inside)
      (λ h. h.seen)
      (λ h. length h.queue)
      door-IsListener
      three
      (accept_loop door 4 (pos 3) three)
accept_loop-Serves_example =
    accept_loop-Serves door (λ h. h.inside) (λ h. h.seen) (λ h. length h.queue) door-IsListener 4
      (pos 3) three (omega arith) refl
