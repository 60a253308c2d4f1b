-- ===== src/KeyStore/Lifecycle.antt =====
-- KeyLifecycle.h: a key leaves the active state at most once, for a state that is final.
use encrypted_transmission_d.Prelude.{
  ℕ, Bool, true, false, List, [], ◌∷◌, ◌++◌, ℤ, pos, ◌≡◌, refl, ◌⊎◌, inl, inr, ◌∙◌, ap, int_eq_iff,
  update_where, arith, Bool-cases,
}
use encrypted_transmission_d.Database.{
  KeyRow, Database, Statement, Reply, insert_key, retire_keys, expire_key, retire_key,
  insert_message, insert_audit, bump_key_sn,
}
use encrypted_transmission_d.Outside.{Outside, World}
use encrypted_transmission_d.Outside.Laws.{View}
use encrypted_transmission_d.Outside.Rules.{RanIdle, tables_of, SameProcess}
use encrypted_transmission_d.Database.Effect.{Collation, effect}

-- Revoked, expired or rotated.
abbrev pub IsFinal : ℤ → Type 0
IsFinal state = (state ≡ pos 2) ⊎ ((state ≡ pos 3) ⊎ (state ≡ pos 4))

-- A row is as it was, or left the active state with all else unchanged.
abbrev pub RowStep : KeyRow → KeyRow → Type 0
RowStep r r' =
    (r' ≡ r) ⊎ ((r.state ≡ pos 1) × IsFinal r'.state × (r' ≡ record r { state = r'.state }))

-- Every row makes such a step, none disappears, and new rows stand behind.
abbrev pub Evolves : List KeyRow → List KeyRow → Type 0
Evolves [] rs' = Unit
Evolves (r ∷ rs) [] = ⊥
Evolves (r ∷ rs) (r' ∷ rs') = RowStep r r' × Evolves rs rs'

pub Evolves-refl : (rs : List KeyRow) → Evolves rs rs
Evolves-refl [] = tt
Evolves-refl (r ∷ rs) = (inl refl, Evolves-refl rs)

RowStep-trans : (a b c : KeyRow) → RowStep a b → RowStep b c → RowStep a c
RowStep-trans a b c p q = ground arith

pub Evolves-trans : (xs ys zs : List KeyRow) → Evolves xs ys → Evolves ys zs → Evolves xs zs
Evolves-trans [] ys zs p q = tt
Evolves-trans (a ∷ xs) [] zs p q = absurd p
Evolves-trans (a ∷ xs) (b ∷ ys) [] p q = absurd q
Evolves-trans (a ∷ xs) (b ∷ ys) (c ∷ zs) p q =
    (RowStep-trans a b c p.0 q.0, Evolves-trans xs ys zs p.1 q.1)

Evolves-append : (rs new : List KeyRow) → Evolves rs (rs ++ new)
Evolves-append [] new = tt
Evolves-append (r ∷ rs) new = (inl refl, Evolves-append rs new)

Evolves-update :
    (test : KeyRow → Bool) (state : ℤ) (rs : List KeyRow)
    → IsFinal state
    → ((r : KeyRow) → test r ≡ true → r.state ≡ pos 1)
    → Evolves rs (update_where test (λ r. record r { state = state }) rs)
Evolves-update test state [] final active = tt
Evolves-update test state (r ∷ rs) final active = (
  elim (Bool-cases (test r)) [
    | inl hit ↦ rw hit (inr (active r hit, final, refl))
    | inr miss ↦ rw miss (inl refl)
  ],
  Evolves-update test state rs final active,
)

-- The statements that keep to the lifecycle: those that retire a key retire an active one.
abbrev pub RespectsLifecycle : Statement → Type 0
RespectsLifecycle (retire_keys new client server old) = IsFinal new × (old ≡ pos 1)
RespectsLifecycle (expire_key new client server key old) = IsFinal new × (old ≡ pos 1)
RespectsLifecycle (retire_key new client server key old) = IsFinal new × (old ≡ pos 1)
RespectsLifecycle _ = Unit

pub effect-Evolves :
    (c : Collation) (now : ℕ) (s : Statement) (db : Database)
    → RespectsLifecycle s
    → Evolves db.keys (effect c now s db).keys
unfolding effect
effect-Evolves c now bump_key_sn db h = Evolves-refl db.keys
effect-Evolves c now (insert_key client server key hours state seckey from) db h =
    Evolves-append db.keys _
effect-Evolves c now (retire_keys new client server old) db h =
    Evolves-update _ new db.keys h.0 (λ r t. ground (arith, int_eq_iff r.state old))
effect-Evolves c now (expire_key new client server key old) db h =
    Evolves-update _ new db.keys h.0 (λ r t. ground (arith, int_eq_iff r.state old))
effect-Evolves c now (retire_key new client server key old) db h =
    Evolves-update _ new db.keys h.0 (λ r t. ground (arith, int_eq_iff r.state old))
effect-Evolves c now (insert_message m) db h = Evolves-refl db.keys
effect-Evolves c now (insert_audit a) db h = Evolves-refl db.keys
effect-Evolves c now _ db h = Evolves-refl db.keys

-- The statements that leave the messages and the audit entries alone.
abbrev pub is_key_statement : Statement → Bool
is_key_statement (insert_message m) = false
is_key_statement (insert_audit a) = false
is_key_statement _ = true

pub effect-messages :
    (c : Collation) (now : ℕ) (s : Statement) (db : Database)
    → is_key_statement s ≡ true
    → ((effect c now s db).messages ≡ db.messages) × ((effect c now s db).audits ≡ db.audits)
unfolding effect
effect-messages c now (insert_message m) db h = absurd (cc)
effect-messages c now (insert_audit a) db h = absurd (cc)
effect-messages c now bump_key_sn db h = (refl, refl)
effect-messages c now _ db h = (refl, refl)

module _ {E H : Type 0} (v : View E) where
  -- A call that changed the server's tables at most, and of those only the keys, within their
  -- lifecycle; no transaction is left open.
  pub record KeysOnly (w w' : World E H) : Type 0 where
    pub process : SameProcess v w w'
    pub idle : v.in_transaction w'.engine ≡ false
    pub messages : (tables_of v w').messages ≡ (tables_of v w).messages
    pub audits : (tables_of v w').audits ≡ (tables_of v w).audits
    pub keys : Evolves (tables_of v w).keys (tables_of v w').keys

  pub KeysOnly-trans : (a b d : World E H) → KeysOnly a b → KeysOnly b d → KeysOnly a d
  KeysOnly-trans a b d p q = record {
    process = q.process ∙ ap (λ (w : World E H). record w { engine = d.engine }) p.process;
    idle = q.idle;
    messages = q.messages ∙ p.messages;
    audits = q.audits ∙ p.audits;
    keys = Evolves-trans _ _ _ p.keys q.keys;
  }

module _ {E H : Type 0} (o : Outside E H) (c : Collation) (v : View E) where
  pub RanIdle-KeysOnly :
      (s : Statement) (w w' : World E H) (r : Reply)
      → is_key_statement s ≡ true
      → RespectsLifecycle s
      → RanIdle o c v s w r w'
      → KeysOnly v w w'
  RanIdle-KeysOnly s w w' r k h (same, i, cases) = elim cases [
    | inl (f, t) ↦ record {
      process = same;
      idle = i;
      messages = ap (λ d. d.messages) t;
      audits = ap (λ d. d.audits) t;
      keys = rw t (Evolves-refl _);
    }
    | inr (t, a) ↦ record {
      process = same;
      idle = i;
      messages = rw t (effect-messages c (v.now w.engine) s (tables_of v w) k).0;
      audits = rw t (effect-messages c (v.now w.engine) s (tables_of v w) k).1;
      keys = rw t (effect-Evolves c (v.now w.engine) s (tables_of v w) h);
    }
  ]
