-- ===== src/Outside/Rules.antt =====
-- Rules for a sequence of calls, and what one SQL statement does to the state of a process.
use encrypted_transmission_d.Prelude.{
  if◌then◌else◌, ℕ, Bool, true, false, List, ◌≡◌, ◌≢◌, refl, ◌⊎◌, inl, inr, ap, sym, ◌∙◌,
}
use encrypted_transmission_d.Database.{
  Database, Statement, Row, Reply, start_transaction, select_key_sn, failed, no_result, rows,
}
use encrypted_transmission_d.Database.Effect.{Collation, effect, answer}
use encrypted_transmission_d.Outside.{Outside, World, Server, on_engine}
use encrypted_transmission_d.Outside.Laws.{View, IsLawful, is_plain}

-- What holds of a call's result and of the state after it.
abbrev pub Post : {E H A : Type 0} → Server E H A → World E H → (A → World E H → Type 0) → Type 0
Post m w Q = Q (m w).0 (m w).1

-- A test, with its answer kept.
pub Post-if :
    {E H A : Type 0} (b : Bool) (m n : Server E H A) (w : World E H) (Q : A → World E H → Type 0)
    → (b ≡ true → Post m w Q)
    → (b ≡ false → Post n w Q)
    → Post (if b then m else n) w Q
Post-if true m n w Q yes_case no_case = yes_case refl
Post-if false m n w Q yes_case no_case = no_case refl

-- mysql_query and mysql_store_result on the connection of the process.
abbrev pub run : {E H : Type 0} → Outside E H → Statement → Server E H Reply
run o s = on_engine (o.query s)

module _ {E H : Type 0} (v : View E) where
  abbrev pub tables_of : World E H → Database
  tables_of w = v.tables w.engine

  abbrev pub saved_of : World E H → Database
  saved_of w = v.saved w.engine

  -- Only the database server was called.
  abbrev pub SameProcess : World E H → World E H → Type 0
  SameProcess w w' = w' ≡ record w { engine = w'.engine }

pub answer-ne-failed :
    (c : Collation) (now : ℕ) (s : Statement) (db : Database) → answer c now s db ≢ failed
unfolding answer
answer-ne-failed c now select_key_sn db = cc
answer-ne-failed c now _ db = cc

module _ {E H : Type 0} (o : Outside E H) (c : Collation) (v : View E) where
  -- What a statement outside the control of transactions does.
  abbrev pub Ran : Statement → World E H → Reply → World E H → Type 0
  Ran s w r w' =
      SameProcess v w w'
      × (saved_of v w' ≡ saved_of v w)
      × (((r ≡ failed)
            × (((tables_of v w' ≡ tables_of v w)
                  × (v.in_transaction w'.engine ≡ v.in_transaction w.engine))
                ⊎ ((v.in_transaction w.engine ≡ true)
                    × (v.in_transaction w'.engine ≡ false)
                    × (tables_of v w' ≡ saved_of v w))))
          ⊎ ((v.in_transaction w'.engine ≡ v.in_transaction w.engine)
              × (tables_of v w' ≡ effect c (v.now w.engine) s (tables_of v w))
              × ((r ≡ answer c (v.now w.engine) s (tables_of v w))
                  ⊎ ((r ≡ no_result)
                      × ((rs : List Row) × (answer c (v.now w.engine) s (tables_of v w)
                            ≡ rows rs))))))

  -- The same where no transaction is open.
  abbrev pub RanIdle : Statement → World E H → Reply → World E H → Type 0
  RanIdle s w r w' =
      SameProcess v w w'
      × (v.in_transaction w'.engine ≡ false)
      × (((r ≡ failed) × (tables_of v w' ≡ tables_of v w))
          ⊎ ((tables_of v w' ≡ effect c (v.now w.engine) s (tables_of v w))
              × ((r ≡ answer c (v.now w.engine) s (tables_of v w))
                  ⊎ ((r ≡ no_result)
                      × ((rs : List Row) × (answer c (v.now w.engine) s (tables_of v w)
                            ≡ rows rs))))))

  plain-ne_start : (s : Statement) → is_plain s ≡ true → s ≢ start_transaction
  plain-ne_start s p e = let r : is_plain s ≡ false = ap is_plain e in cc

  module _ (l : IsLawful o c v) where
    -- A query, from what the laws say of its reply.
    pub run_plain : (s : Statement) (w : World E H) → is_plain s ≡ true → Post (run o s) w (Ran s w)
    run_plain s w p = elim (l.answers s w.engine) [
      | inl f ↦ (refl, kept, inl (f, l.failed_plain s w.engine p f))
      | inr (inl a) ↦
          let (t, e) = effected (λ f. answer-ne-failed c (v.now w.engine) s _ (sym a ∙ f)) in
          (refl, kept, inr (t, e, inl a))
      | inr (inr (n, rest)) ↦
          let (t, e) = effected (λ f. cc) in (refl, kept, inr (t, e, inr (n, rest)))
    ]
      where
        kept : v.saved (o.query s w.engine).1 ≡ v.saved w.engine
        kept = l.saved_keeps s w.engine (plain-ne_start s p)

        effected :
            (o.query s w.engine).0 ≢ failed
            → (v.in_transaction (o.query s w.engine).1 ≡ v.in_transaction w.engine)
              × (v.tables (o.query s w.engine).1 ≡ effect c (v.now w.engine) s (tables_of v w))
        effected = l.plain_effect s w.engine p

    pub run_idle :
        (s : Statement) (w : World E H)
        → is_plain s ≡ true
        → v.in_transaction w.engine ≡ false
        → Post (run o s) w (RanIdle s w)
    run_idle s w p idle =
        let (same, kept, cases) = run_plain s w p in
        elim cases [
          | inl (f, inl (t, i)) ↦ (same, i ∙ idle, inl (f, t))
          | inl (f, inr t) ↦ let open_then = t.0 in absurd (cc)
          | inr (i, e, a) ↦ (same, i ∙ idle, inr (e, a))
        ]
