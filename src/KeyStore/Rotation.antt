-- ===== src/KeyStore/Rotation.antt =====
-- mysqlOP.cpp, writeSecKeyWithTrans: what its answers say of the tables.
use encrypted_transmission_d.Prelude.{
  ℕ, String, Bool, true, false, not, ◌&&◌, some, List, [], ◌∷◌, ◌++◌, ℤ, pos, ◌≡◌, refl,
  is_positive, increment, select, update_where, arith,
}
use encrypted_transmission_d.Cache.{Node}
use encrypted_transmission_d.Database.{KeyRow, Database}
use encrypted_transmission_d.Database.Effect.{Collation, in_state, set_state, new_row}
use encrypted_transmission_d.Outside.{Outside, World}
use encrypted_transmission_d.Outside.Laws.{View, IsLawful, IsReliable}
use encrypted_transmission_d.Outside.Rules.{Post, tables_of, SameProcess}
use encrypted_transmission_d.KeyStore.{write_sec_key_with_trans, rotated_from}
use encrypted_transmission_d.KeyStore.Transaction.{Outcome, IsLegal}
use encrypted_transmission_d.KeyStore.Rotate.{write-Outcome}

-- The row belongs to another pair.
abbrev pub is_other : Collation → String → String → KeyRow → Bool
is_other c client server row = not (c.same row.client_id client && c.same row.server_id server)

module _ (c : Collation) (client server : String) (row : KeyRow) where
  retire-active :
      (keys : List KeyRow)
      → in_state c client server (pos 1) row ≡ true
      → select
          (in_state c client server (pos 1))
          (update_where (in_state c client server (pos 1)) (set_state c (pos 4)) keys ++ row ∷ [])
        ≡ row ∷ []
  retire-active [] h = rw h
  retire-active (r ∷ rs) h = ground (arith, retire-active rs h)

  retire-other :
      (keys : List KeyRow)
      → is_other c client server row ≡ false
      → select
          (is_other c client server)
          (update_where (in_state c client server (pos 1)) (set_state c (pos 4)) keys ++ row ∷ [])
        ≡ select (is_other c client server) keys
  retire-other [] h = rw h
  retire-other (r ∷ rs) h = ground (arith, retire-other rs h)

module _ {E H : Type 0} (c : Collation) (v : View E) where
  -- The pair's only active row is the new one, numbered by keysn and published to the caller's
  -- node; keysn is one further, and the rows of the other pairs are as they were.
  pub record Rotated (w : World E H) (node node' : Node) (db : Database) : Type 0 where
    pub key_id : ℤ
    pub now : ℕ
    pub from : ℤ
    pub numbered : (tables_of v w).key_sn ≡ some key_id
    pub positive : is_positive key_id ≡ true
    pub published : node' ≡ record node { seckey_id = key_id; status = pos 1 }
    pub counted : db.key_sn ≡ some (increment key_id)
    pub only_active :
        select (in_state c node.client_id node.server_id (pos 1)) db.keys
        ≡ new_row c now node.client_id node.server_id key_id 24
            (pos 1)
            node.seckey
            (rotated_from from)
          ∷ []
    pub others :
        select (is_other c node.client_id node.server_id) db.keys
        ≡ select (is_other c node.client_id node.server_id) (tables_of v w).keys

module _ {E H : Type 0} (o : Outside E H) (c : Collation) (v : View E) (l : IsLawful o c v)
    (node : Node) (w : World E H) (idle : v.in_transaction w.engine ≡ false) where
  outcome : Post (write_sec_key_with_trans o node) w (Outcome o c v l w node (Rotated c v w node))
  outcome =
      write-Outcome o c v l w node (Rotated c v w node)
        (λ key_id now from sn above. record {
          key_id = key_id;
          now = now;
          from = from;
          numbered = sn;
          positive = above;
          published = refl;
          counted = rw sn;
          only_active =
              retire-active c node.client_id node.server_id _ (tables_of v w).keys
                (rw (l.same_refl node.client_id, l.same_refl node.server_id));
          others =
              retire-other c node.client_id node.server_id _ (tables_of v w).keys
                (rw (l.same_refl node.client_id, l.same_refl node.server_id));
        })
        idle

  -- With no transaction open, a rotation that `writeSecKeyWithTrans` reports as done leaves the pair
  -- exactly one active key,
  -- the new one under the number that keysn held; keysn has moved on by one, and no row of another
  -- pair has changed. The transaction is closed.
  pub write_sec_key_with_trans-Rotated :
      (write_sec_key_with_trans o node w).0.0 ≡ true
      → Rotated c v w node
          (write_sec_key_with_trans o node w).0.1
          (tables_of v (write_sec_key_with_trans o node w).1)
        × (v.in_transaction (write_sec_key_with_trans o node w).1.engine ≡ false)
  write_sec_key_with_trans-Rotated done = outcome.success done

  -- With no transaction open and a server that fails no rollback and no commit, a rotation that `writeSecKeyWithTrans` reports
  -- as failed leaves the tables and the caller's node exactly as they were, whichever statement
  -- failed, and the transaction closed.
  pub write_sec_key_with_trans_atomic :
      IsReliable o
      → (write_sec_key_with_trans o node w).0.0 ≡ false
      → (tables_of v (write_sec_key_with_trans o node w).1 ≡ tables_of v w)
        × ((write_sec_key_with_trans o node w).0.1 ≡ node)
        × (v.in_transaction (write_sec_key_with_trans o node w).1.engine ≡ false)
  write_sec_key_with_trans_atomic reliable failed =
      let (t, i) = outcome.restored failed reliable in (t, outcome.failure failed, i)

  -- With no transaction open, whatever `writeSecKeyWithTrans` answers and whatever the server fails, it changes at most the
  -- keys, within their lifecycle, where no row disappears and none leaves a final state, and keysn,
  -- which stays or moves on by one. No message and no audit entry changes, and nothing else of the
  -- process.
  pub write_sec_key_with_trans-IsLegal :
      IsLegal (tables_of v w) (tables_of v (write_sec_key_with_trans o node w).1)
      × SameProcess v w (write_sec_key_with_trans o node w).1
  write_sec_key_with_trans-IsLegal = (outcome.legal, outcome.process)
