-- ===== src/KeyStore.antt =====
-- mysqlOP.cpp: the statements on seckeyinfo and keysn. `none` is undefined behaviour: the places
-- that read the result set without a test that there is one.
pub mod Lifecycle
pub mod Check
pub mod Liveness
pub mod Transaction
pub mod Rotate
pub mod Rotation
use encrypted_transmission_d.Prelude.{
  c_str, String, Bool, true, false, Option, none, some, List, [], ◌∷◌, zero, suc, ℤ, pos, negsuc,
  is_positive, int_eq, not, ◌&&◌, atoi, if◌then◌else◌,
}
use encrypted_transmission_d.Cache.{Node}
use encrypted_transmission_d.Database.{
  Statement, Row, Reply, start_transaction, rollback, commit, select_key_sn, lock_key_sn,
  bump_key_sn, insert_key, lock_keys, retire_keys, expire_key, select_key, retire_key, failed, done,
  rows, no_result, active, revoked, expired, rotated, state_code, key_default_validity_hours,
}
use encrypted_transmission_d.Outside.{
  Outside, World, Server, Handle, absent, disconnected, connected, pure, ◌>>=◌, ◌>>◌,
}
use encrypted_transmission_d.Outside.Rules.{run}

-- `mysql_query(…) != 0`.
abbrev pub is_failed : Reply → Bool
is_failed failed = true
is_failed _ = false

-- What mysql_store_result fetches.
abbrev pub result_set : Reply → Option (List Row)
result_set (rows rs) = some rs
result_set _ = none

-- mysql_affected_rows.
abbrev pub affected_none : Reply → Bool
affected_none (done zero) = true
affected_none (done (suc n)) = false
affected_none _ = true

-- mysql_fetch_row on a fresh result set.
abbrev pub first_row : List Row → Option Row
first_row [] = none
first_row (r ∷ rs) = some r

-- A column as text: the C string `row[i]` up to its first NUL, empty where it is NULL, ...
abbrev pub column_text : Option String → String
column_text none = ""
column_text (some s) = c_str s

-- ... the columns of a row one by one, ...
abbrev pub column : Row → Option String
column [] = none
column (x ∷ xs) = x

abbrev pub next_columns : Row → Row
next_columns [] = []
next_columns (x ∷ xs) = xs

-- ... and as a number, 0 where it is NULL.
abbrev pub column_int : Option String → ℤ
column_int none = pos 0
column_int (some s) = atoi s

-- The key number of a row, the first test of `writeSecKeyWithTrans` on it: a NULL row or column.
abbrev pub first_column : List Row → Option String
first_column [] = none
first_column (r ∷ rs) = column r

-- rotatedFromKeyID, or NULL if it is not above 0.
abbrev pub rotated_from : ℤ → Option ℤ
rotated_from from = if is_positive from then some from else none

abbrev pub is_connected : Handle → Bool
is_connected connected = true
is_connected _ = false

-- The two columns of a row of seckeyinfo against the number asked for.
abbrev pub is_active_key : ℤ → Row → Bool
is_active_key key_id row =
    int_eq (column_int (column row)) key_id
    && int_eq (column_int (column (next_columns row))) (state_code active)

abbrev pub check_row : ℤ → Option (List Row) → Bool
check_row key_id none = false
check_row key_id (some []) = false
check_row key_id (some (row ∷ _)) = is_active_key key_id row

abbrev pub first_key_sn : List Row → Option String
first_key_sn [] = none
first_key_sn (row ∷ _) = some (column_text (column row))

module _ {E H : Type 0} (o : Outside E H) where
  unfoldable pub get_key_id : Server E H (Option ℤ)
  get_key_id = do
    reply ← run o select_key_sn
    if is_failed reply then pure (some (negsuc 0)) else elim (result_set reply) [
      | none ↦ pure none
      | some [] ↦ pure (some (negsuc 0))
      | some (row ∷ _) ↦ pure (some (column_int (column row)))
    ]

  -- The lambda `rollback`, and the failure that follows it.
  unfoldable pub abandon : Node → Server E H (Bool × Node)
  abandon node = do _ ← run o rollback; pure (false, node)

  -- The commit, and the new number in the caller's node.
  unfoldable pub commit_key : Node → ℤ → Server E H (Bool × Node)
  commit_key node key_id = do
    committed ← run o commit
    if is_failed committed
        then abandon node
        else pure (true, record node { seckey_id = key_id; status = state_code active })

  unfoldable pub bump_and_commit : Node → ℤ → Server E H (Bool × Node)
  bump_and_commit node key_id = do
    bumped ← run o bump_key_sn
    if is_failed bumped then abandon node else commit_key node key_id

  unfoldable pub insert_new_key : Node → ℤ → ℤ → Server E H (Bool × Node)
  insert_new_key node key_id from = do
    inserted ← run o (
        insert_key node.client_id node.server_id key_id key_default_validity_hours
          (state_code active) node.seckey (rotated_from from))
    if is_failed inserted then abandon node else bump_and_commit node key_id

  unfoldable pub rotate_keys : Node → ℤ → ℤ → Server E H (Bool × Node)
  rotate_keys node key_id from = do
    retired ←
        run o (retire_keys (state_code rotated) node.client_id node.server_id (state_code active))
    if is_failed retired then abandon node else insert_new_key node key_id from

  unfoldable pub lock_active_keys : Node → ℤ → Server E H (Bool × Node)
  lock_active_keys node key_id = do
    reply ← run o (lock_keys node.client_id node.server_id (state_code active))
    elim (result_set reply) [
      | none ↦ abandon node
      | some rs ↦ rotate_keys node key_id (column_int (first_column rs))
    ]

  -- The tests on the row of keysn.
  unfoldable pub with_key_number : Node → Option String → Server E H (Bool × Node)
  with_key_number node none = abandon node
  with_key_number node (some text) =
      if is_positive (atoi text) then lock_active_keys node (atoi text) else abandon node

  unfoldable pub allocate_key : Node → Server E H (Bool × Node)
  allocate_key node = do
    reply ← run o lock_key_sn
    elim (result_set reply) [
      | none ↦ abandon node
      | some rs ↦ with_key_number node (first_column rs)
    ]

  unfoldable pub write_sec_key_with_trans : Node → Server E H (Bool × Node)
  write_sec_key_with_trans node w =
      if is_connected w.db
      then (do
        started ← run o start_transaction
        if is_failed started then pure (false, node) else allocate_key node)
          w
      else ((false, node), w)

  -- The select of `checkSecKey`, and the test of the row.
  unfoldable pub select_checked : String → String → ℤ → Server E H Bool
  select_checked client server key_id = do
    reply ← run o (select_key client server key_id)
    pure (check_row key_id (result_set reply))

  unfoldable pub check_sec_key : String → String → ℤ → Server E H Bool
  check_sec_key client server key_id = do
    due ← run o (expire_key (state_code expired) client server key_id (state_code active))
    if is_failed due then pure false else select_checked client server key_id

  unfoldable pub logout_sec_key : String → String → ℤ → Server E H Bool
  logout_sec_key client server key_id = do
    reply ← run o (retire_key (state_code revoked) client server key_id (state_code active))
    pure (not (affected_none reply))

  -- `writeSecKey`, which no handler calls; the null test is the `none`.
  unfoldable pub write_sec_key : Option Node → Server E H Bool
  write_sec_key none = pure false
  write_sec_key (some node) = do
    inserted ← run o (
        insert_key node.client_id node.server_id node.seckey_id key_default_validity_hours
          (state_code active) node.seckey none)
    pure (not (is_failed inserted))

  -- `updateKeyId`, which no handler calls.
  unfoldable pub bump_locked : Option String → Server E H (Option Bool)
  bump_locked none = do _ ← run o rollback; pure (some false)
  bump_locked (some _) = do
    bumped ← run o bump_key_sn
    if is_failed bumped
        then (do _ ← run o rollback; pure (some false))
        else (do _ ← run o commit; pure (some true))

  unfoldable pub update_key_id : Server E H (Option Bool)
  update_key_id = do
    _ ← run o start_transaction
    locked ← run o lock_key_sn
    if is_failed locked
        then (do _ ← run o rollback; pure (some false))
        else elim (result_set locked) [ none ↦ pure none | some rs ↦ bump_locked (first_key_sn rs) ]
