-- ===== src/Database.antt =====
-- The tables of init_db.sql, as far as the server reads them back, and the SQL statements that
-- mysqlOP.cpp sends. A statement is a constructor with the values that its text carries: that the
-- server reads an escaped literal back as the value is documented of MySQL. A DATETIME is a count
-- of seconds. The columns that no statement reads (id, createtime, invalidatetime) are left out.

pub mod Effect
use encrypted_transmission_d.Prelude.{String, ℕ, Option, List, ℤ, pos}

-- KeyLifecycleState of KeyLifecycle.h.
pub data KeyLifecycleState : Type 0 where
  active revoked expired rotated : KeyLifecycleState

abbrev pub state_code : KeyLifecycleState → ℤ
state_code active = pos 1
state_code revoked = pos 2
state_code expired = pos 3
state_code rotated = pos 4

abbrev pub key_default_validity_hours : ℕ
key_default_validity_hours = 24

-- A row of seckeyinfo.
pub record KeyRow : Type 0 where
  pub client_id : String
  pub server_id : String
  pub key_id : ℤ
  pub expire_time : ℕ
  pub state : ℤ
  pub seckey : String
  pub rotated_from : Option ℤ

-- MessageLogRecord of MessageRepository.h, and a row of message_log.
pub record MessageLogRecord : Type 0 where
  pub msg_id : String
  pub sender_id : String
  pub receiver_id : String
  pub sender_key_id : ℤ
  pub receiver_key_id : ℤ
  pub msg_type : String
  pub sender_ciphertext : String
  pub sender_nonce : String
  pub sender_tag : String
  pub receiver_ciphertext : String
  pub receiver_nonce : String
  pub receiver_tag : String
  pub algorithm : String
  pub send_time : String
  pub status : ℤ

-- AuditLogRecord of AuditService.h.
pub record AuditLogRecord : Type 0 where
  pub log_id : String
  pub node_id : String
  pub action : String
  pub target_id : String
  pub result : ℤ
  pub detail : String
  pub create_time : String

-- A row of audit_log: `node_id` may be NULL.
pub record AuditRow : Type 0 where
  pub entry : AuditLogRecord
  pub node : Option String

-- The row of keysn, the keys, the messages and the audit entries.
pub record Database : Type 0 where
  pub key_sn : Option ℤ
  pub keys : List KeyRow
  pub messages : List MessageLogRecord
  pub audits : List AuditRow

pub data Statement : Type 0 where
  start_transaction rollback commit : Statement
  -- select ikeysn from keysn
  select_key_sn : Statement
  -- select ikeysn from keysn for update
  lock_key_sn : Statement
  -- update keysn set ikeysn = ikeysn + 1
  bump_key_sn : Statement
  -- insert into seckeyinfo(…) values(client, server, key, …, now + hours, state, seckey, from)
  insert_key : String → String → ℤ → ℕ → ℤ → String → Option ℤ → Statement
  -- select keyid from seckeyinfo where client, server, state order by keyid desc for update
  lock_keys : String → String → ℤ → Statement
  -- update seckeyinfo set state = new where client, server, state = old
  retire_keys : ℤ → String → String → ℤ → Statement
  -- update seckeyinfo set state = new where client, server, key, state = old and expiretime <= now()
  expire_key : ℤ → String → String → ℤ → ℤ → Statement
  -- select keyid, state from seckeyinfo where client, server, key
  select_key : String → String → ℤ → Statement
  -- update seckeyinfo set state = new where client, server, key, state = old
  retire_key : ℤ → String → String → ℤ → ℤ → Statement
  insert_message : MessageLogRecord → Statement
  insert_audit : AuditRow → Statement
  -- select … from message_log where msg_id
  select_message : String → Statement
  -- select … from message_log where sender_id order by send_time desc limit
  select_recent : String → ℤ → Statement

-- A row of a result set: the text of each column, or NULL.
abbrev pub Row : Type 0
Row = List (Option String)

-- What a statement comes back with: an error of `mysql_query`, the count of the rows that it
-- changed, a result set, or no result set where `mysql_store_result` fails.
pub data Reply : Type 0 where
  failed : Reply
  done : ℕ → Reply
  rows : List Row → Reply
  no_result : Reply
