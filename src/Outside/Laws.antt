-- ===== src/Outside/Laws.antt =====
-- What the code relies on of MySQL, as hypotheses over a view of the server's state.
use encrypted_transmission_d.Prelude.{
  ℕ, ◌≤◌, String, Bool, true, false, List, [], ◌∷◌, ℤ, ◌≡◌, ◌≢◌, ◌⊎◌, length, All, to_count,
  is_empty, if◌then◌else◌,
}
use encrypted_transmission_d.Database.{
  MessageLogRecord, Database, Statement, Row, start_transaction, rollback, commit, failed,
  no_result, rows,
}
use encrypted_transmission_d.Database.Effect.{Collation, effect, answer}
use encrypted_transmission_d.Outside.{Outside}

-- A view of the database server: the tables as the connection sees them, the tables at the start
-- of its last transaction, whether that is still open, and the server's clock.
pub record View (E : Type 0) : Type 0 where
  pub tables : E → Database
  pub saved : E → Database
  pub in_transaction : E → Bool
  pub now : E → ℕ

-- The statements that neither open nor close a transaction.
abbrev pub is_plain : Statement → Bool
is_plain start_transaction = false
is_plain rollback = false
is_plain commit = false
is_plain _ = true

-- `a` is one of the list.
abbrev pub Among : {A : Type 0} → A → List A → Type 0
Among a [] = ⊥
Among a (x ∷ xs) = (a ≡ x) ⊎ Among a xs

pub record IsLawful {E H : Type 0} (o : Outside E H) (c : Collation) (v : View E) : Type 0 where
  -- the collation's equality is reflexive
  pub same_refl : (s : String) → c.same s s ≡ true
  -- `limit n` of the rows whose sender matches
  pub recent_rows :
      (s : String) (n : ℤ) (ms : List MessageLogRecord)
      → All (λ m. (c.same m.sender_id s ≡ true) × Among m ms) (c.recent s n ms)
  pub recent_limit :
      (s : String) (n : ℤ) (ms : List MessageLogRecord) → length (c.recent s n ms) ≤ to_count n
  -- a statement that fails changes nothing, or its failure ends the open transaction with a
  -- rollback, as a deadlock does
  pub failed_plain :
      (s : Statement) (e : E)
      → is_plain s ≡ true
      → (o.query s e).0 ≡ failed
      → ((v.tables (o.query s e).1 ≡ v.tables e)
          × (v.in_transaction (o.query s e).1 ≡ v.in_transaction e))
        ⊎ ((v.in_transaction e ≡ true)
            × (v.in_transaction (o.query s e).1 ≡ false)
            × (v.tables (o.query s e).1 ≡ v.saved e))
  -- a statement that succeeds has its effect, and answers as it should, or its result set is lost
  pub plain_effect :
      (s : Statement) (e : E)
      → is_plain s ≡ true
      → (o.query s e).0 ≢ failed
      → (v.in_transaction (o.query s e).1 ≡ v.in_transaction e)
        × (v.tables (o.query s e).1 ≡ effect c (v.now e) s (v.tables e))
  pub answers :
      (s : Statement) (e : E)
      → ((o.query s e).0 ≡ failed)
        ⊎ (((o.query s e).0 ≡ answer c (v.now e) s (v.tables e))
            ⊎ (((o.query s e).0 ≡ no_result)
                × ((rs : List Row) × (answer c (v.now e) s (v.tables e) ≡ rows rs))))
  -- a transaction that starts remembers the tables
  pub start_saves :
      (e : E)
      → (o.query start_transaction e).0 ≢ failed
      → (v.saved (o.query start_transaction e).1 ≡ v.tables e)
        × (v.tables (o.query start_transaction e).1 ≡ v.tables e)
        × (v.in_transaction (o.query start_transaction e).1 ≡ true)
  pub failed_start :
      (e : E)
      → (o.query start_transaction e).0 ≡ failed
      → (v.tables (o.query start_transaction e).1 ≡ v.tables e)
        × (v.in_transaction (o.query start_transaction e).1 ≡ v.in_transaction e)
  pub saved_keeps :
      (s : Statement) (e : E) → s ≢ start_transaction → v.saved (o.query s e).1 ≡ v.saved e
  -- a rollback that succeeds brings them back, if the transaction is still open
  pub rollback_restores :
      (e : E)
      → (o.query rollback e).0 ≢ failed
      → (v.tables (o.query rollback e).1 ≡ (if v.in_transaction e then v.saved e else v.tables e))
        × (v.in_transaction (o.query rollback e).1 ≡ false)
  -- after one that fails the tables are as they were, or the server has brought them back
  pub failed_rollback :
      (e : E)
      → (o.query rollback e).0 ≡ failed
      → (v.tables (o.query rollback e).1 ≡ v.tables e)
        ⊎ (v.tables (o.query rollback e).1 ≡ (if v.in_transaction e then v.saved e else v.tables e))
  -- a commit that succeeds keeps the tables; after one that fails the transaction may be open,
  -- committed or rolled back
  pub commit_keeps :
      (e : E)
      → (o.query commit e).0 ≢ failed
      → (v.tables (o.query commit e).1 ≡ v.tables e)
        × (v.in_transaction (o.query commit e).1 ≡ false)
  pub failed_commit :
      (e : E)
      → (o.query commit e).0 ≡ failed
      → (v.tables (o.query commit e).1 ≡ v.tables e) ⊎ (v.tables (o.query commit e).1 ≡ v.saved e)

-- A server whose transaction control does not fail.
abbrev pub IsReliable : {E H : Type 0} → Outside E H → Type 0
IsReliable {E} {H} o =
    ((e : E) → (o.query rollback e).0 ≢ failed) × ((e : E) → (o.query commit e).0 ≢ failed)

-- What the code relies on of OpenSSL: base64 is undone by its decoder, and a GCM ciphertext is
-- decrypted by its key, nonce and tag, none of which is empty.
pub record IsSound {E H : Type 0} (o : Outside E H) : Type 0 where
  pub base64_decode-encode : (s : String) → o.base64_decode (o.base64_encode s) ≡ s
  pub gcm_decrypt-encrypt :
      (key plaintext : String) (h : H)
      → (o.gcm_encrypt key plaintext h).0.success ≡ true
      → o.gcm_decrypt key
          (o.gcm_encrypt key plaintext h).0.nonce
          (o.gcm_encrypt key plaintext h).0.ciphertext
          (o.gcm_encrypt key plaintext h).0.tag
        ≡ record { success = true; plaintext = plaintext; error_msg = "" }
  pub gcm_nonempty :
      (key plaintext : String) (h : H)
      → is_empty plaintext ≡ false
      → (o.gcm_encrypt key plaintext h).0.success ≡ true
      → (is_empty (o.gcm_encrypt key plaintext h).0.ciphertext ≡ false)
        × (is_empty (o.gcm_encrypt key plaintext h).0.nonce ≡ false)
        × (is_empty (o.gcm_encrypt key plaintext h).0.tag ≡ false)
