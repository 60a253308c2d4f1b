-- ===== src/KeyStore/Transaction.antt =====
-- mysqlOP.cpp, writeSecKeyWithTrans: the steps of a transaction, each with what it leads to.
use encrypted_transmission_d.Prelude.{
  Option, increment, subst, Option-cases, ℕ, Bool, true, false, none, some, List, ℤ, pos, ◌≡◌, ◌≢◌,
  refl, sym, ◌⊎◌, inl, inr, ◌∙◌, ap, if◌then◌else◌, Bool-cases,
}
use encrypted_transmission_d.Cache.{Node}
use encrypted_transmission_d.Database.{
  Database, Statement, Row, Reply, rollback, commit, bump_key_sn, failed, done, rows, no_result,
}
use encrypted_transmission_d.Database.Effect.{Collation, effect, answer}
use encrypted_transmission_d.Outside.{Outside, World, Server, ◌>>=◌}
use encrypted_transmission_d.Outside.Laws.{View, IsLawful, IsReliable, is_plain}
use encrypted_transmission_d.Outside.Rules.{
  Post, run, run_plain, answer-ne-failed, Ran, tables_of, saved_of, SameProcess,
}
use encrypted_transmission_d.KeyStore.Lifecycle.{
  Evolves, Evolves-refl, Evolves-trans, effect-Evolves, effect-messages, is_key_statement,
  RespectsLifecycle,
}
use encrypted_transmission_d.KeyStore.{abandon, commit_key, is_failed, result_set}

-- Of two values of keysn: the same, or one further.
abbrev pub Counts : Option ℤ → Option ℤ → Type 0
Counts sn sn' = (sn' ≡ sn) ⊎ ((key : ℤ) × (sn ≡ some key) × (sn' ≡ some (increment key)))

-- Of two states of the tables: only keys changed, within their lifecycle, and keysn, by one step at
-- most.
pub record IsLegal (db db' : Database) : Type 0 where
  pub messages : db'.messages ≡ db.messages
  pub audits : db'.audits ≡ db.audits
  pub keys : Evolves db.keys db'.keys
  pub counter : Counts db.key_sn db'.key_sn

pub IsLegal-refl : (db : Database) → IsLegal db db
IsLegal-refl db = record {
  messages = refl;
  audits = refl;
  keys = Evolves-refl db.keys;
  counter = inl refl;
}

effect-Counts :
    (c : Collation) (now : ℕ) (s : Statement) (db : Database)
    → Counts db.key_sn (effect c now s db).key_sn
unfolding effect
effect-Counts c now bump_key_sn db = elim (Option-cases db.key_sn) [
  | inl e ↦ rw e (inl refl)
  | inr (key, e) ↦ rw e (inr (key, refl, refl))
]
effect-Counts c now _ db = inl refl

effect-IsLegal :
    (c : Collation) (now : ℕ) (s : Statement) (db db' : Database)
    → is_key_statement s ≡ true
    → RespectsLifecycle s
    → db'.key_sn ≡ db.key_sn
    → IsLegal db db'
    → IsLegal db (effect c now s db')
effect-IsLegal c now s db db' k h uncounted legal = record {
  messages = (effect-messages c now s db' k).0 ∙ legal.messages;
  audits = (effect-messages c now s db' k).1 ∙ legal.audits;
  keys = Evolves-trans _ _ _ legal.keys (effect-Evolves c now s db' h);
  counter =
      subst (λ sn. Counts sn (effect c now s db').key_sn) uncounted (effect-Counts c now s db');
}

Reply-cases : (r : Reply) → (r ≡ failed) ⊎ (r ≢ failed)
Reply-cases failed = inl refl
Reply-cases (done n) = inr (cc)
Reply-cases (rows rs) = inr (cc)
Reply-cases no_result = inr (cc)

module _ {E H : Type 0} (o : Outside E H) (c : Collation) (v : View E) (l : IsLawful o c v)
    (start : World E H) (node : Node) (Good : Node → Database → Type 0) where
  -- Inside the transaction that began at `start`, with the tables `db`.
  pub record At (db : Database) (w : World E H) : Type 0 where
    pub process : SameProcess v start w
    pub saved : saved_of v w ≡ tables_of v start
    pub begun : v.in_transaction w.engine ≡ true
    pub tables : tables_of v w ≡ db
    pub legal : IsLegal (tables_of v start) db

  -- A statement has failed: the transaction is open, or already rolled back. A commit that failed
  -- may have been made; a reliable server fails none.
  pub record Doomed (w : World E H) : Type 0 where
    pub process : SameProcess v start w
    pub saved : saved_of v w ≡ tables_of v start
    pub legal : IsLegal (tables_of v start) (tables_of v w)
    pub restores :
        IsReliable o
        → (if v.in_transaction w.engine then saved_of v w else tables_of v w) ≡ tables_of v start

  pub record Outcome (r : Bool × Node) (w : World E H) : Type 0 where
    pub process : SameProcess v start w
    pub legal : IsLegal (tables_of v start) (tables_of v w)
    pub success : r.0 ≡ true → Good r.1 (tables_of v w) × (v.in_transaction w.engine ≡ false)
    pub failure : r.0 ≡ false → r.1 ≡ node
    pub restored :
        r.0 ≡ false
        → IsReliable o
        → (tables_of v w ≡ tables_of v start) × (v.in_transaction w.engine ≡ false)

  -- What a statement inside the transaction leads to.
  step_in :
      (s : Statement) (db : Database) (w w' : World E H) (r : Reply)
      → is_key_statement s ≡ true
      → RespectsLifecycle s
      → db.key_sn ≡ (tables_of v start).key_sn
      → At db w
      → Ran o c v s w r w'
      → ((r ≡ failed) × Doomed w')
        ⊎ (At (effect c (v.now w.engine) s db) w'
            × ((r ≡ answer c (v.now w.engine) s db)
                ⊎ ((r ≡ no_result)
                    × ((rs : List Row) × (answer c (v.now w.engine) s db ≡ rows rs)))))
  step_in s db w w' r k h u inside (same, kept, cases) = elim cases [
    | inl (f, inl (t, i)) ↦ inl (
      f,
      record {
        process = process;
        saved = saved;
        legal = rw (t, inside.tables) inside.legal;
        restores = λ _. rw (i, inside.begun) saved;
      },
    )
    | inl (f, inr t) ↦ inl (
      f,
      record {
        process = process;
        saved = saved;
        legal = rw (t.2, inside.saved) (IsLegal-refl _);
        restores = λ _. rw t.1 (t.2 ∙ inside.saved);
      },
    )
    | inr (i, t, a) ↦ inr (
      record {
        process = process;
        saved = saved;
        begun = i ∙ inside.begun;
        tables = t ∙ ap (effect c (v.now w.engine) s) inside.tables;
        legal = effect-IsLegal c (v.now w.engine) s _ db k h u inside.legal;
      },
      rw (← inside.tables) a,
    )
  ]
    where
      process : SameProcess v start w'
      process = same ∙ ap (λ (x : World E H). record x { engine = w'.engine }) inside.process

      saved : saved_of v w' ≡ tables_of v start
      saved = kept ∙ inside.saved

  -- A rollback of the transaction.
  pub abandon-Outcome : (w : World E H) → Doomed w → Post (abandon o node) w Outcome
  unfolding abandon
  abandon-Outcome w d = elim (Reply-cases (o.query rollback w.engine).0) [
    | inl f ↦ elim (l.failed_rollback w.engine f) [
      | inl t ↦ refused (rw t d.legal) (λ r. absurd (r.0 w.engine f))
      | inr t ↦ refused (rw t either) (λ r. absurd (r.0 w.engine f))
    ]
    | inr n ↦
        let (t, i) = l.rollback_restores w.engine n in
        refused (rw t either) (λ r. (t ∙ d.restores r, i))
  ]
    where
      either :
          IsLegal
            (tables_of v start)
            (if v.in_transaction w.engine then saved_of v w else tables_of v w)
      either = elim (Bool-cases (v.in_transaction w.engine)) [
        | inl i ↦ rw (i, d.saved) (IsLegal-refl _)
        | inr i ↦ rw i d.legal
      ]

      refused :
          IsLegal (tables_of v start) (v.tables (o.query rollback w.engine).1)
          → (IsReliable o
              → (v.tables (o.query rollback w.engine).1 ≡ tables_of v start)
                × (v.in_transaction (o.query rollback w.engine).1 ≡ false))
          → Outcome (false, node) (record w { engine = (o.query rollback w.engine).1 })
      refused legal restored = record {
        process =
            ap (λ (x : World E H). record x { engine = (o.query rollback w.engine).1 }) d.process;
        legal = legal;
        success = λ h. absurd (cc);
        failure = λ h. refl;
        restored = λ h. restored;
      }

  abbrev pub numbered : ℤ → Node
  numbered key_id = record node { seckey_id = key_id; status = pos 1 }

  pub commit_key-Outcome :
      (key_id : ℤ) (db : Database) (w : World E H)
      → At db w
      → Good (numbered key_id) db
      → Post (commit_key o node key_id) w Outcome
  unfolding commit_key
  commit_key-Outcome key_id db w inside good = go (o.query commit w.engine).0 refl
    where
      after : World E H
      after = record w { engine = (o.query commit w.engine).1 }

      process : SameProcess v start after
      process =
          ap (λ (x : World E H). record x { engine = (o.query commit w.engine).1 }) inside.process

      committed : (o.query commit w.engine).0 ≢ failed → Outcome (true, numbered key_id) after
      committed n =
          let (t, i) = l.commit_keeps w.engine n in
          record {
            process = process;
            legal = rw (t, inside.tables) inside.legal;
            success = λ h. (rw (t, inside.tables) good, i);
            failure = λ h. absurd (cc);
            restored = λ h. absurd (cc);
          }

      doubtful : (o.query commit w.engine).0 ≡ failed → Doomed after
      doubtful f = record {
        process = process;
        saved = l.saved_keeps commit w.engine (cc) ∙ inside.saved;
        legal = elim (l.failed_commit w.engine f) [
          | inl t ↦ rw (t, inside.tables) inside.legal
          | inr t ↦ rw (t, inside.saved) (IsLegal-refl _)
        ];
        restores = λ r. absurd (r.1 w.engine f);
      }

      go : (r : Reply) → (o.query commit w.engine).0 ≡ r → Post (commit_key o node key_id) w Outcome
      go failed e = rw (e, commit_key) (abandon-Outcome after (doubtful e))
      go (done n) e = rw e (committed (λ f. cc))
      go (rows rs) e = rw e (committed (λ f. cc))
      go no_result e = rw e (committed (λ f. cc))

  -- The stages that go on unless the statement fails, ...
  pub update-Outcome :
      (s : Statement) (db : Database) (w : World E H) (next : Server E H (Bool × Node))
      → is_plain s ≡ true
      → is_key_statement s ≡ true
      → RespectsLifecycle s
      → db.key_sn ≡ (tables_of v start).key_sn
      → At db w
      → ((w' : World E H) → At (effect c (v.now w.engine) s db) w' → Post next w' Outcome)
      → Post (run o s >>= λ r. if is_failed r then abandon o node else next) w Outcome
  update-Outcome s db w next p k h u inside rest =
      go (o.query s w.engine).0 _ (step_in s db w _ _ k h u inside (run_plain o c v l s w p))
    where
      go :
          (r : Reply) (w' : World E H)
          → ((r ≡ failed) × Doomed w')
            ⊎ (At (effect c (v.now w.engine) s db) w'
                × ((r ≡ answer c (v.now w.engine) s db)
                    ⊎ ((r ≡ no_result)
                        × ((rs : List Row) × (answer c (v.now w.engine) s db ≡ rows rs)))))
          → Post (if is_failed r then abandon o node else next) w' Outcome
      go failed w' (inl (f, d)) = abandon-Outcome w' d
      go failed w' (inr (i, inl a)) = absurd (answer-ne-failed c (v.now w.engine) s db (sym a))
      go failed w' (inr (i, inr a)) = absurd (let n = a.0 in cc)
      go (done n) w' (inl (f, d)) = absurd (cc)
      go (done n) w' (inr (i, a)) = rest w' i
      go (rows rs) w' (inl (f, d)) = absurd (cc)
      go (rows rs) w' (inr (i, a)) = rest w' i
      go no_result w' (inl (f, d)) = absurd (cc)
      go no_result w' (inr (i, a)) = rest w' i

  -- ... and those that go on with the result set.
  pub select-Outcome :
      (s : Statement) (db : Database) (w : World E H) (next : List Row → Server E H (Bool × Node))
      → is_plain s ≡ true
      → is_key_statement s ≡ true
      → RespectsLifecycle s
      → db.key_sn ≡ (tables_of v start).key_sn
      → At db w
      → ((rs : List Row) (w' : World E H)
          → answer c (v.now w.engine) s db ≡ rows rs
          → At (effect c (v.now w.engine) s db) w'
          → Post (next rs) w' Outcome)
      → Post
          (run o s >>= λ r. elim (result_set r) [ none ↦ abandon o node | some rs ↦ next rs ])
          w
          Outcome
  select-Outcome s db w next p k h u inside rest =
      go (o.query s w.engine).0 _ (step_in s db w _ _ k h u inside (run_plain o c v l s w p))
    where
      doomed : (w' : World E H) → At (effect c (v.now w.engine) s db) w' → Doomed w'
      doomed w' i = record {
        process = i.process;
        saved = i.saved;
        legal = rw i.tables i.legal;
        restores = λ _. rw i.begun i.saved;
      }

      go :
          (r : Reply) (w' : World E H)
          → ((r ≡ failed) × Doomed w')
            ⊎ (At (effect c (v.now w.engine) s db) w'
                × ((r ≡ answer c (v.now w.engine) s db)
                    ⊎ ((r ≡ no_result)
                        × ((rs : List Row) × (answer c (v.now w.engine) s db ≡ rows rs)))))
          → Post (elim (result_set r) [ none ↦ abandon o node | some rs ↦ next rs ]) w' Outcome
      go failed w' (inl (f, d)) = abandon-Outcome w' d
      go failed w' (inr (i, a)) = abandon-Outcome w' (doomed w' i)
      go (done n) w' (inl (f, d)) = absurd (cc)
      go (done n) w' (inr (i, a)) = abandon-Outcome w' (doomed w' i)
      go (rows rs) w' (inl (f, d)) = absurd (cc)
      go (rows rs) w' (inr (i, inl a)) = rest rs w' (sym a) i
      go (rows rs) w' (inr (i, inr a)) = absurd (let n = a.0 in cc)
      go no_result w' (inl (f, d)) = absurd (cc)
      go no_result w' (inr (i, a)) = abandon-Outcome w' (doomed w' i)
