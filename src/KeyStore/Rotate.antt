-- ===== src/KeyStore/Rotate.antt =====
-- mysqlOP.cpp, writeSecKeyWithTrans: the rotation of a pair's key is one transaction.
use encrypted_transmission_d.Prelude.{
  ℕ, true, false, some, List, [], ◌∷◌, ◌++◌, ℤ, pos, ◌≡◌, ◌≢◌, refl, sym, inl, inr, ◌∙◌, ap,
  is_positive, update_where, if◌then◌else◌, Bool-cases, Option-cases, to_string, atoi-to_string,
}
use encrypted_transmission_d.Cache.{Node}
use encrypted_transmission_d.Database.{
  KeyRow, Database, Row, Reply, start_transaction, lock_key_sn, bump_key_sn, insert_key, lock_keys,
  retire_keys, failed, done, rows, no_result,
}
use encrypted_transmission_d.Database.Effect.{
  Collation, effect, answer, in_state, set_state, new_row, bump, key_sn_rows,
}
use encrypted_transmission_d.Outside.{Outside, World, pure}
use encrypted_transmission_d.Outside.Laws.{View, IsLawful}
use encrypted_transmission_d.Outside.Rules.{Post, tables_of, SameProcess}
use encrypted_transmission_d.KeyStore.{
  commit_key, bump_and_commit, insert_new_key, rotate_keys, lock_active_keys, with_key_number,
  allocate_key, write_sec_key_with_trans, is_failed, first_column, column_int, rotated_from,
  is_connected,
}
use encrypted_transmission_d.KeyStore.Transaction.{
  At, Doomed, Outcome, IsLegal-refl, numbered, abandon-Outcome, commit_key-Outcome, update-Outcome,
  select-Outcome,
}

rows-injective : {xs ys : List Row} → rows xs ≡ rows ys → xs ≡ ys
rows-injective e = cc

module _ {E H : Type 0} (o : Outside E H) (c : Collation) (v : View E) (l : IsLawful o c v)
    (start : World E H) (node : Node) (Good : Node → Database → Type 0) where
  abbrev pub retired : List KeyRow
  retired =
      update_where (in_state c node.client_id node.server_id (pos 1)) (set_state c (pos 4))
        (tables_of v start).keys

  abbrev pub inserted : ℕ → ℤ → ℤ → List KeyRow
  inserted now key_id from =
      retired
      ++ new_row c now node.client_id node.server_id key_id 24 (pos 1) node.seckey
          (rotated_from from)
        ∷ []

  abbrev pub rotation : ℕ → ℤ → ℤ → Database
  rotation now key_id from = record (tables_of v start) {
    key_sn = bump c (tables_of v start).key_sn;
    keys = inserted now key_id from;
  }

  module _ (key_id : ℤ)
      (good : (now : ℕ) (from : ℤ)
        → Good (numbered o c v l start node Good key_id) (rotation now key_id from)) where
    bump_and_commit-Outcome :
        (now : ℕ) (from : ℤ) (w : World E H)
        → At o c v l start node Good
            (record (tables_of v start) { keys = inserted now key_id from })
            w
        → Post (bump_and_commit o node key_id) w (Outcome o c v l start node Good)
    unfolding bump_and_commit effect
    bump_and_commit-Outcome now from w inside =
        update-Outcome o c v l start node Good bump_key_sn _ w (commit_key o node key_id) refl refl
          tt refl inside
          (λ w' i. commit_key-Outcome o c v l start node Good key_id _ w' i (good now from))

    insert_new_key-Outcome :
        (from : ℤ) (w : World E H)
        → At o c v l start node Good (record (tables_of v start) { keys = retired }) w
        → Post (insert_new_key o node key_id from) w (Outcome o c v l start node Good)
    unfolding insert_new_key effect
    insert_new_key-Outcome from w inside =
        update-Outcome o c v l start node Good
          (insert_key node.client_id node.server_id key_id 24 (pos 1) node.seckey
            (rotated_from from))
          _ w (bump_and_commit o node key_id) refl refl tt refl inside
          (λ w' i. bump_and_commit-Outcome (v.now w.engine) from w' i)

    rotate_keys-Outcome :
        (from : ℤ) (w : World E H)
        → At o c v l start node Good (tables_of v start) w
        → Post (rotate_keys o node key_id from) w (Outcome o c v l start node Good)
    unfolding rotate_keys effect
    rotate_keys-Outcome from w inside =
        update-Outcome o c v l start node Good
          (retire_keys (pos 4) node.client_id node.server_id (pos 1)) _ w
          (insert_new_key o node key_id from) refl refl (inr (inr refl), refl) refl inside
          (λ w' i. insert_new_key-Outcome from w' i)

    lock_active_keys-Outcome :
        (w : World E H)
        → At o c v l start node Good (tables_of v start) w
        → Post (lock_active_keys o node key_id) w (Outcome o c v l start node Good)
    unfolding lock_active_keys effect
    lock_active_keys-Outcome w inside =
        select-Outcome o c v l start node Good (lock_keys node.client_id node.server_id (pos 1)) _ w
          (λ rs. rotate_keys o node key_id (column_int (first_column rs))) refl refl tt refl inside
          (λ rs w' a i. rotate_keys-Outcome (column_int (first_column rs)) w' i)

  module _
      (good : (key_id : ℤ) (now : ℕ) (from : ℤ)
        → (tables_of v start).key_sn ≡ some key_id
        → is_positive key_id ≡ true
        → Good (numbered o c v l start node Good key_id) (rotation now key_id from)) where
    open_transaction :
        (w : World E H)
        → At o c v l start node Good (tables_of v start) w
        → Doomed o c v l start node Good w
    open_transaction w i = record {
      process = i.process;
      saved = i.saved;
      legal = rw i.tables i.legal;
      restores = λ _. rw i.begun i.saved;
    }

    with_number-Outcome :
        (key_id : ℤ) (w : World E H)
        → (tables_of v start).key_sn ≡ some key_id
        → At o c v l start node Good (tables_of v start) w
        → Post
            (with_key_number o node (some (to_string key_id)))
            w
            (Outcome o c v l start node Good)
    unfolding with_key_number
    with_number-Outcome key_id w sn i =
        rw (atoi-to_string key_id) (elim (Bool-cases (is_positive key_id)) [
          | inl above ↦
              rw above
                (lock_active_keys-Outcome key_id (λ now from. good key_id now from sn above) w i)
          | inr not_above ↦
              rw not_above (abandon-Outcome o c v l start node Good w (open_transaction w i))
        ])

    allocate_key-Outcome :
        (w : World E H)
        → At o c v l start node Good (tables_of v start) w
        → Post (allocate_key o node) w (Outcome o c v l start node Good)
    unfolding allocate_key effect answer
    allocate_key-Outcome w inside =
        select-Outcome o c v l start node Good lock_key_sn _ w
          (λ rs. with_key_number o node (first_column rs)) refl refl tt refl inside
          (λ rs w' a i. elim (Option-cases (tables_of v start).key_sn) [
            | inl sn ↦
                let e : [] ≡ rs = rows-injective (ap (λ n. rows (key_sn_rows n)) (sym sn) ∙ a) in
                rw (← e) (
                  unfold with_key_number in
                  abandon-Outcome o c v l start node Good w' (open_transaction w' i))
            | inr (key_id, sn) ↦
                let e : (some (to_string key_id) ∷ []) ∷ [] ≡ rs =
                  rows-injective (ap (λ n. rows (key_sn_rows n)) (sym sn) ∙ a) in
                rw (← e) (with_number-Outcome key_id w' sn i)
          ])

    pub write-Outcome :
        v.in_transaction start.engine ≡ false
        → Post (write_sec_key_with_trans o node) start (Outcome o c v l start node Good)
    unfolding write_sec_key_with_trans
    write-Outcome idle = elim (Bool-cases (is_connected start.db)) [
      | inr unmade ↦ rw (unmade, write_sec_key_with_trans) (unchanged start refl refl idle)
      | inl made ↦
          rw (made, write_sec_key_with_trans) (go (o.query start_transaction start.engine).0 refl)
    ]
      where
        unchanged :
            (w : World E H)
            → SameProcess v start w
            → tables_of v w ≡ tables_of v start
            → v.in_transaction w.engine ≡ false
            → Outcome o c v l start node Good (false, node) w
        unchanged w same t i = record {
          process = same;
          legal = rw t (IsLegal-refl _);
          success = λ h. absurd (cc);
          failure = λ h. refl;
          restored = λ h r. (t, i);
        }

        begun : World E H
        begun = record start { engine = (o.query start_transaction start.engine).1 }

        inside :
            (o.query start_transaction start.engine).0 ≢ failed
            → At o c v l start node Good (tables_of v start) begun
        inside n =
            let (s, t, i) = l.start_saves start.engine n in
            record { process = refl; saved = s; begun = i; tables = t; legal = IsLegal-refl _ }

        go :
            (r : Reply)
            → (o.query start_transaction start.engine).0 ≡ r
            → Post
                (λ w.
                  (if is_failed (o.query start_transaction start.engine).0
                      then pure (false, node)
                      else allocate_key o node)
                    begun)
                start
                (Outcome o c v l start node Good)
        go failed e =
            let (t, i) = l.failed_start start.engine e in rw e (unchanged begun refl t (i ∙ idle))
        go (done n) e = rw e (allocate_key-Outcome begun (inside (λ f. cc)))
        go (rows rs) e = rw e (allocate_key-Outcome begun (inside (λ f. cc)))
        go no_result e = rw e (allocate_key-Outcome begun (inside (λ f. cc)))
