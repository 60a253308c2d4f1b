-- ===== src/Database/Effect.antt =====
-- The statements of mysqlOP.cpp on the tables: what each one changes, and what it answers. `same`
-- is the equality of the columns' collation, which need not be that of `std::string`.
use encrypted_transmission_d.Prelude.{
  ℕ, ◌+◌, ◌*◌, String, Bool, ◌&&◌, Option, none, some, List, [], ◌∷◌, ◌++◌, map, ℤ, pos, negsuc,
  int_eq, increment, leb, to_string, length, select, update_where, if◌then◌else◌,
}
use encrypted_transmission_d.Database.{
  KeyRow, MessageLogRecord, Database, Statement, Row, Reply, select_key_sn, lock_key_sn,
  bump_key_sn, insert_key, lock_keys, retire_keys, expire_key, select_key, retire_key,
  insert_message, insert_audit, select_message, select_recent, done, rows,
}

-- The server: its collation, and the rows that it picks for `order by send_time desc limit`, where
-- the order of equal times is its own.
pub record Collation : Type 0 where
  pub same : String → String → Bool
  pub recent : String → ℤ → List MessageLogRecord → List MessageLogRecord

module _ (c : Collation) where
  -- where clientid = client and serverid = server and state = state
  abbrev pub in_state : String → String → ℤ → KeyRow → Bool
  in_state client server state row =
      c.same row.client_id client && c.same row.server_id server && int_eq row.state state

  -- where clientid = client and serverid = server and keyid = key
  abbrev pub is_key : String → String → ℤ → KeyRow → Bool
  is_key client server key row =
      c.same row.client_id client && c.same row.server_id server && int_eq row.key_id key

  -- ... and state = state
  abbrev pub is_key_in_state : String → String → ℤ → ℤ → KeyRow → Bool
  is_key_in_state client server key state row =
      is_key client server key row && int_eq row.state state

  -- ... and expiretime <= now()
  abbrev pub is_due : ℕ → String → String → ℤ → ℤ → KeyRow → Bool
  is_due now client server key state row =
      is_key_in_state client server key state row && leb row.expire_time now

  abbrev pub set_state : ℤ → KeyRow → KeyRow
  set_state state row = record row { state = state }

  abbrev pub new_row : ℕ → String → String → ℤ → ℕ → ℤ → String → Option ℤ → KeyRow
  new_row now client server key hours state seckey from = record {
    client_id = client;
    server_id = server;
    key_id = key;
    expire_time = now + hours * 3600;
    state = state;
    seckey = seckey;
    rotated_from = from;
  }

  abbrev pub bump : Option ℤ → Option ℤ
  bump none = none
  bump (some n) = some (increment n)

  unfoldable pub effect : ℕ → Statement → Database → Database
  effect now bump_key_sn db = record db { key_sn = bump db.key_sn }
  effect now (insert_key client server key hours state seckey from) db = record db {
    keys = db.keys ++ new_row now client server key hours state seckey from ∷ [];
  }
  effect now (retire_keys new client server old) db = record db {
    keys = update_where (in_state client server old) (set_state new) db.keys;
  }
  effect now (expire_key new client server key old) db = record db {
    keys = update_where (is_due now client server key old) (set_state new) db.keys;
  }
  effect now (retire_key new client server key old) db = record db {
    keys = update_where (is_key_in_state client server key old) (set_state new) db.keys;
  }
  effect now (insert_message message) db = record db { messages = db.messages ++ message ∷ [] }
  effect now (insert_audit audit) db = record db { audits = db.audits ++ audit ∷ [] }
  effect now _ db = db

-- The columns of the result sets, as text.
abbrev pub key_sn_rows : Option ℤ → List Row
key_sn_rows none = []
key_sn_rows (some n) = (some (to_string n) ∷ []) ∷ []

abbrev pub key_id_row : KeyRow → Row
key_id_row row = some (to_string row.key_id) ∷ []

abbrev pub key_state_row : KeyRow → Row
key_state_row row = some (to_string row.key_id) ∷ some (to_string row.state) ∷ []

abbrev pub message_row : MessageLogRecord → Row
message_row m =
    some m.sender_id
    ∷ some m.receiver_id
    ∷ some (to_string m.sender_key_id)
    ∷ some m.msg_type
    ∷ some m.sender_ciphertext
    ∷ some m.sender_nonce
    ∷ some m.sender_tag
    ∷ some m.send_time
    ∷ some (to_string m.status)
    ∷ []

abbrev pub summary_row : MessageLogRecord → Row
summary_row m =
    some m.msg_id
    ∷ some m.sender_id
    ∷ some m.receiver_id
    ∷ some (to_string m.sender_key_id)
    ∷ some m.msg_type
    ∷ some m.send_time
    ∷ some (to_string m.status)
    ∷ []

abbrev int_leb : ℤ → ℤ → Bool
int_leb (pos a) (pos b) = leb a b
int_leb (pos a) (negsuc b) = Bool.false
int_leb (negsuc a) (pos b) = Bool.true
int_leb (negsuc a) (negsuc b) = leb b a

-- order by keyid desc
insert_desc : KeyRow → List KeyRow → List KeyRow
insert_desc row [] = row ∷ []
insert_desc row (r ∷ rs) =
    let rest = insert_desc row rs in if int_leb r.key_id row.key_id then row ∷ r ∷ rs else r ∷ rest

unfoldable pub sort_desc : List KeyRow → List KeyRow
unfolding insert_desc
sort_desc [] = []
sort_desc (r ∷ rs) = insert_desc r (sort_desc rs)

module _ (c : Collation) where
  unfoldable pub answer : ℕ → Statement → Database → Reply
  answer now select_key_sn db = rows (key_sn_rows db.key_sn)
  answer now lock_key_sn db = rows (key_sn_rows db.key_sn)
  answer now (lock_keys client server state) db =
      rows (map key_id_row (sort_desc (select (in_state c client server state) db.keys)))
  answer now (retire_keys new client server old) db =
      done (length (select (in_state c client server old) db.keys))
  answer now (expire_key new client server key old) db =
      done (length (select (is_due c now client server key old) db.keys))
  answer now (select_key client server key) db =
      rows (map key_state_row (select (is_key c client server key) db.keys))
  answer now (retire_key new client server key old) db =
      done (length (select (is_key_in_state c client server key old) db.keys))
  answer now (select_message id) db =
      rows (map message_row (select (λ m. c.same m.msg_id id) db.messages))
  answer now (select_recent sender limit) db =
      rows (map summary_row (c.recent sender limit db.messages))
  answer now _ db = done 1
