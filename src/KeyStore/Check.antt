-- ===== src/KeyStore/Check.antt =====
-- mysqlOP.cpp, checkSecKey and logoutSecKey: what their answers say of the tables.
use encrypted_transmission_d.Prelude.{
  ◌⊎◌, ℕ, ◌<◌, zero, suc, String, Bool, true, false, some, List, [], ◌∷◌, map, ℤ, pos, ◌≡◌, ◌≢◌,
  refl, sym, inl, inr, ◌∙◌, ◌&&◌, ap, int_eq, int_eq_iff, select, update_where, if◌then◌else◌, All,
  not, update_where-none, arith, Bool-cases, atoi-to_string,
}
use encrypted_transmission_d.Database.{
  KeyRow, Statement, Reply, expire_key, select_key, retire_key, failed, done, rows, no_result,
}
use encrypted_transmission_d.Database.Effect.{
  Collation, effect, answer, is_key, is_key_in_state, is_due, set_state, key_state_row,
}
use encrypted_transmission_d.Outside.{Outside, World, pure}
use encrypted_transmission_d.Outside.Laws.{View, IsLawful, Among}
use encrypted_transmission_d.Outside.Rules.{Post, run_idle, RanIdle, tables_of}
use encrypted_transmission_d.KeyStore.Lifecycle.{KeysOnly, KeysOnly-trans, RanIdle-KeysOnly}
use encrypted_transmission_d.KeyStore.{
  check_sec_key, select_checked, is_failed, logout_sec_key, check_row, result_set, affected_none,
}

-- The row of `key` for the pair is active, and will be for a time after `now`.
abbrev pub IsLive : Collation → ℕ → String → String → ℤ → KeyRow → Type 0
IsLive c now client server key row =
    (is_key c client server key row ≡ true) × (row.state ≡ pos 1) × (now < row.expire_time)

-- Some row is, before a call and after it.
abbrev pub HasLive : Collation → ℕ → String → String → ℤ → List KeyRow → List KeyRow → Type 0
HasLive c now client server key keys keys' =
    (row : KeyRow) × Among row keys × Among row keys' × IsLive c now client server key row

-- No row of the key is active.
abbrev pub NoneActive : Collation → String → String → ℤ → List KeyRow → Type 0
NoneActive c client server key =
    All (λ row. is_key_in_state c client server key (pos 1) row ≡ false)

abbrev after_expiry : Collation → ℕ → String → String → ℤ → List KeyRow → List KeyRow
after_expiry c now client server key keys =
    update_where (is_due c now client server key (pos 1)) (set_state c (pos 3)) keys

-- The first row of the key decides.
pub check_row-cons :
    (c : Collation) (client server : String) (key : ℤ) (row : KeyRow) (keys : List KeyRow)
    → is_key c client server key row ≡ true
    → check_row key (some (map key_state_row (select (is_key c client server key) (row ∷ keys))))
      ≡ (int_eq row.key_id key && int_eq row.state (pos 1))
check_row-cons c client server key row keys hit =
    rw hit (rw (atoi-to_string row.key_id, atoi-to_string row.state) refl)

-- After the due rows have expired, it is found active only if it is live.
check_row-HasLive :
    (c : Collation) (now : ℕ) (client server : String) (key : ℤ) (keys : List KeyRow)
    → check_row key (
        some (
          map key_state_row
            (select (is_key c client server key) (after_expiry c now client server key keys))))
      ≡ true
    → HasLive c now client server key keys (after_expiry c now client server key keys)
check_row-HasLive c now client server key [] h = absurd (cc)
check_row-HasLive c now client server key (row ∷ keys) h =
    elim (Bool-cases (is_due c now client server key (pos 1) row)) [
      | inl due ↦
          let e =
            check_row-cons c client server key (set_state c (pos 3) row)
              (after_expiry c now client server key keys) in
          let h' = rw due at h in absurd (ground (arith, e))
      | inr alive ↦ elim (Bool-cases (is_key c client server key row)) [
        | inl hit ↦
            let e =
              check_row-cons c client server key row (after_expiry c now client server key keys)
                hit in
            let h' : (int_eq row.key_id key && int_eq row.state (pos 1)) ≡ true =
              sym e ∙ (rw alive at h) in
            let s : row.state ≡ pos 1 = ground (arith, int_eq_iff row.state (pos 1)) in
            (row, inl refl, inl (rw alive), (hit, s, ground arith))
        | inr miss ↦
            let h' = rw miss at (rw alive at h) in
            let (r, before, after, live) = check_row-HasLive c now client server key keys h' in
            (r, inr before, inr after, live)
      ]
    ]

module _ {E H : Type 0} (o : Outside E H) (c : Collation) (v : View E) (l : IsLawful o c v)
    (w : World E H) (idle : v.in_transaction w.engine ≡ false) where
  abbrev expires : String → String → ℤ → Statement
  expires client server key = expire_key (pos 3) client server key (pos 1)

  check_selected :
      (client server : String) (key : ℤ) (now : ℕ) (keys : List KeyRow) (w' w'' : World E H)
      (r : Reply)
      → (tables_of v w').keys ≡ after_expiry c now client server key keys
      → RanIdle o c v (select_key client server key) w' r w''
      → check_row key (result_set r) ≡ true
      → HasLive c now client server key keys (tables_of v w'').keys
  unfolding effect answer
  check_selected client server key now keys w' w'' r expired (same, i, cases) h = elim cases [
    | inl (f, t) ↦ absurd (let h' = rw f at h in cc)
    | inr (t, inr (n, rest)) ↦ absurd (let h' = rw n at h in cc)
    | inr (t, inl a) ↦
        let h' = rw expired at (rw a at h) in
        rw (t, expired) (check_row-HasLive c now client server key keys h')
  ]

  expired_keys :
      (client server : String) (key : ℤ) (r : Reply) (w' : World E H)
      → RanIdle o c v (expires client server key) w r w'
      → r ≢ failed
      → (tables_of v w').keys
        ≡ after_expiry c (v.now w.engine) client server key (tables_of v w).keys
  unfolding effect
  expired_keys client server key r w' (same, i, cases) n = elim cases [
    | inl (f, t) ↦ absurd (n f)
    | inr (t, a) ↦ ap (λ d. d.keys) t
  ]

  abbrev Checked : String → String → ℤ → Bool → World E H → Type 0
  Checked client server key b w' =
      KeysOnly v w w'
      × (b ≡ true
          → HasLive c (v.now w.engine) client server key (tables_of v w).keys (tables_of v w').keys)

  select_checked-Checked :
      (client server : String) (key : ℤ) (r : Reply) (w' : World E H)
      → RanIdle o c v (expires client server key) w r w'
      → r ≢ failed
      → Post (select_checked o client server key) w' (Checked client server key)
  unfolding select_checked
  select_checked-Checked client server key r w' ran ok =
      let updated =
        RanIdle-KeysOnly o c v (expires client server key) w w' r refl (inr (inl refl), refl) ran in
      let chosen = run_idle o c v l (select_key client server key) w' refl updated.idle in
      (
        KeysOnly-trans v w w' _ updated
            (RanIdle-KeysOnly o c v (select_key client server key) w' _ _ refl tt chosen),
        check_selected client server key _ _ w' _ _ (expired_keys client server key r w' ran ok)
            chosen,
      )

  updated-Checked :
      (client server : String) (key : ℤ) (r : Reply) (w' : World E H)
      → RanIdle o c v (expires client server key) w r w'
      → Post
          (if is_failed r then pure false else select_checked o client server key)
          w'
          (Checked client server key)
  updated-Checked client server key failed w' ran = (
    RanIdle-KeysOnly o c v (expires client server key) w w' failed refl (inr (inl refl), refl) ran,
    λ h. absurd (cc),
  )
  updated-Checked client server key (done n) w' ran =
      select_checked-Checked client server key (done n) w' ran (cc)
  updated-Checked client server key (rows rs) w' ran =
      select_checked-Checked client server key (rows rs) w' ran (cc)
  updated-Checked client server key no_result w' ran =
      select_checked-Checked client server key no_result w' ran (cc)

  pub check_sec_key-HasLive :
      (client server : String) (key : ℤ)
      → Post (check_sec_key o client server key) w (Checked client server key)
  unfolding check_sec_key
  check_sec_key-HasLive client server key =
      updated-Checked client server key _ _
        (run_idle o c v l (expires client server key) w refl idle)

  -- With no transaction open, `checkSecKey` changes at most the keys, within their lifecycle; and it
  -- answers no, or it answers yes and some row of the key is active and not yet due, in the tables
  -- that it finds and in those that it leaves behind.
  pub check_sec_key_confirms :
      (client server : String) (key : ℤ)
      → KeysOnly v w (check_sec_key o client server key w).1
        × (((check_sec_key o client server key w).0 ≡ false)
            ⊎ (((check_sec_key o client server key w).0 ≡ true)
                × HasLive c
                    (v.now w.engine)
                    client
                    server
                    key
                    (tables_of v w).keys
                    (tables_of v (check_sec_key o client server key w).1).keys))
  check_sec_key_confirms client server key =
      let (quiet, live) = check_sec_key-HasLive client server key in
      (
        quiet,
        elim (Bool-cases (check_sec_key o client server key w).0) [
          | inl e ↦ inr (e, live e)
          | inr e ↦ inl e
        ],
      )

  abbrev revokes : String → String → ℤ → Statement
  revokes client server key = retire_key (pos 2) client server key (pos 1)

  update-NoneActive :
      (client server : String) (key : ℤ) (keys : List KeyRow)
      → NoneActive c client server key
          (update_where (is_key_in_state c client server key (pos 1)) (set_state c (pos 2)) keys)
  update-NoneActive client server key [] = tt
  update-NoneActive client server key (row ∷ keys) =
      (ground arith, update-NoneActive client server key keys)

  unchanged_count : (n : ℕ) → not (affected_none (done n)) ≡ false → n ≡ 0
  unchanged_count zero h = refl
  unchanged_count (suc n) h = absurd (cc)

  abbrev LoggedOut : String → String → ℤ → Bool → World E H → Type 0
  LoggedOut client server key b w' =
      KeysOnly v w w'
      × (b ≡ true → NoneActive c client server key (tables_of v w').keys)
      × (b ≡ false → tables_of v w' ≡ tables_of v w)

  revoked-LoggedOut :
      (client server : String) (key : ℤ) (r : Reply) (w' : World E H)
      → RanIdle o c v (revokes client server key) w r w'
      → (not (affected_none r) ≡ true → NoneActive c client server key (tables_of v w').keys)
        × (not (affected_none r) ≡ false → tables_of v w' ≡ tables_of v w)
  unfolding effect answer
  revoked-LoggedOut client server key r w' (same, i, cases) = elim cases [
    | inl (f, t) ↦ (λ h. absurd (let h' = rw f at h in cc), λ h. t)
    | inr (t, inr (n, e)) ↦ let f = e.1 in absurd (cc)
    | inr (t, inl a) ↦ (
      λ h. rw t (update-NoneActive client server key (tables_of v w).keys),
      λ h.
          t
          ∙ ap (λ ks. record (tables_of v w) { keys = ks })
              (update_where-none _ (set_state c (pos 2)) (tables_of v w).keys
                (unchanged_count _ (rw a at h))),
    )
  ]

  logout_sec_key-NoneActive :
      (client server : String) (key : ℤ)
      → Post (logout_sec_key o client server key) w (LoggedOut client server key)
  unfolding logout_sec_key
  logout_sec_key-NoneActive client server key =
      let ran = run_idle o c v l (revokes client server key) w refl idle in
      let (yes_case, no_case) = revoked-LoggedOut client server key _ _ ran in
      (
        RanIdle-KeysOnly o c v (revokes client server key) w _ _ refl (inl refl, refl) ran,
        yes_case,
        no_case,
      )

  -- With no transaction open, `logoutSecKey` changes at most the keys, within their lifecycle; and it
  -- answers yes and leaves no active row of the key, or it answers no and leaves the tables as they
  -- were.
  pub logout_sec_key_revokes :
      (client server : String) (key : ℤ)
      → KeysOnly v w (logout_sec_key o client server key w).1
        × ((((logout_sec_key o client server key w).0 ≡ true)
              × NoneActive c client server key
                  (tables_of v (logout_sec_key o client server key w).1).keys)
            ⊎ (((logout_sec_key o client server key w).0 ≡ false)
                × (tables_of v (logout_sec_key o client server key w).1 ≡ tables_of v w)))
  logout_sec_key_revokes client server key =
      let (quiet, yes_case, no_case) = logout_sec_key-NoneActive client server key in
      (
        quiet,
        elim (Bool-cases (logout_sec_key o client server key w).0) [
          | inl e ↦ inl (e, yes_case e)
          | inr e ↦ inr (e, no_case e)
        ],
      )
