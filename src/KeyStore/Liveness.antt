-- ===== src/KeyStore/Liveness.antt =====
-- mysqlOP.cpp, `checkSecKey`: a live key is confirmed.
use encrypted_transmission_d.Prelude.{
  ℕ, String, true, false, List, [], ◌∷◌, map, some, ℤ, pos, ◌≡◌, refl, ap, ◌∙◌, inl, inr, int_eq,
  int_eq_refl, ◌<◌, arith, select, update_where, Bool-cases,
}
use encrypted_transmission_d.Database.{KeyRow, Statement, select_key, expire_key}
use encrypted_transmission_d.Database.Effect.{
  Collation, is_key, is_due, set_state, key_state_row, effect, answer,
}
use encrypted_transmission_d.Outside.{Outside, World}
use encrypted_transmission_d.Outside.Laws.{View, IsLawful}
use encrypted_transmission_d.Outside.Rules.{Post, tables_of, run}
use encrypted_transmission_d.KeyStore.{is_failed, check_row, select_checked, check_sec_key}
use encrypted_transmission_d.KeyStore.Check.{check_row-cons}

-- A server that fails no statement and loses no result set.
pub record NeverFails {E H : Type 0} (o : Outside E H) (c : Collation) (v : View E) : Type 0 where
  pub replies : (s : Statement) (e : E) → (o.query s e).0 ≡ answer c (v.now e) s (v.tables e)

module _ (c : Collation) (now : ℕ) (client server : String) (key : ℤ) where
  abbrev after_expiry : List KeyRow → List KeyRow
  after_expiry = update_where (is_due c now client server key (pos 1)) (set_state c (pos 3))

  -- The first row of the key is live, so the update that expires keys leaves it, and it is read.
  confirmed :
      (keys rest : List KeyRow) (row : KeyRow)
      → select (is_key c client server key) keys ≡ row ∷ rest
      → row.state ≡ pos 1
      → now < row.expire_time
      → check_row key
          (some (map key_state_row (select (is_key c client server key) (after_expiry keys))))
        ≡ true
  confirmed [] rest row e active alive = absurd (cc)
  confirmed (r ∷ keys) rest row e active alive = elim (Bool-cases (is_key c client server key r)) [
    | inl hit ↦
        let same : r ≡ row = (let e' = rw hit at e in cc) in
        let young : is_due c now client server key (pos 1) r ≡ false =
          (let x = ap (λ (k : KeyRow). k.expire_time) same in ground arith) in
        let k : int_eq r.key_id key ≡ true = ground arith in
        let s : int_eq r.state (pos 1) ≡ true =
          rw (ap (λ (k : KeyRow). k.state) same, active) (int_eq_refl (pos 1)) in
        rw young (check_row-cons c client server key r (after_expiry keys) hit ∙ rw (k, s) refl)
    | inr miss ↦
        let young : is_due c now client server key (pos 1) r ≡ false = rw miss refl in
        rw (young, miss) (confirmed keys rest row (rw miss at e) active alive)
  ]

module _ {E H : Type 0} (o : Outside E H) (c : Collation) (v : View E) (l : IsLawful o c v)
    (sure : NeverFails o c v) (client server : String) (key : ℤ) where
  abbrev expiry : Statement
  expiry = expire_key (pos 3) client server key (pos 1)

  not_failed : (w : World E H) → is_failed (o.query expiry w.engine).0 ≡ false
  unfolding answer
  not_failed w = rw (sure.replies expiry w.engine) refl

  expired_tables :
      (w : World E H)
      → (v.tables (o.query expiry w.engine).1).keys
        ≡ after_expiry c (v.now w.engine) client server key (tables_of v w).keys
  unfolding effect
  expired_tables w =
      ap (λ d. d.keys)
        (l.plain_effect expiry w.engine refl
          (λ f. let e = not_failed w in absurd (let e' = rw f at e in cc))).1

  selected_checked :
      (w : World E H) (rest : List KeyRow) (row : KeyRow)
      → select (is_key c client server key) (tables_of v w).keys ≡ row ∷ rest
      → row.state ≡ pos 1
      → v.now w.engine < row.expire_time
      → Post (select_checked o client server key) (run o expiry w).1 (λ b w'. b ≡ true)
  unfolding select_checked answer
  selected_checked w rest row first active alive =
      rw (sure.replies (select_key client server key) (o.query expiry w.engine).1, expired_tables w)
        (confirmed c (v.now w.engine) client server key (tables_of v w).keys rest row first active
          alive)

  -- On a server that fails no statement and loses no result set, `checkSecKey` answers yes where the
  -- first row of the key is active and not yet due.
  pub check_sec_key_answers :
      (w : World E H) (rest : List KeyRow) (row : KeyRow)
      → select (is_key c client server key) (tables_of v w).keys ≡ row ∷ rest
      → row.state ≡ pos 1
      → v.now w.engine < row.expire_time
      → (check_sec_key o client server key w).0 ≡ true
  unfolding check_sec_key
  check_sec_key_answers w rest row first active alive =
      rw (not_failed w) (selected_checked w rest row first active alive)
