-- ===== src/MessageStore.antt =====
-- mysqlOP.cpp (message_log and audit_log), MessageRepository.cpp and AuditService.cpp.
use encrypted_transmission_d.Prelude.{
  String, Bool, true, false, not, Option, none, some, List, [], ◌∷◌, map, ℤ, pos, is_positive,
  is_empty, atoi, if◌then◌else◌,
}
use encrypted_transmission_d.Database.{
  Statement, MessageLogRecord, AuditLogRecord, Row, insert_message, insert_audit, select_message,
  select_recent,
}
use encrypted_transmission_d.Outside.{Outside, Server, Handle, absent, pure, ◌>>=◌, on_host}
use encrypted_transmission_d.Outside.Rules.{run}
use encrypted_transmission_d.KeyStore.{
  is_failed, result_set, first_row, column_text, column_int, column, next_columns,
}

-- MessageQueryResult, less `found` and `errorMsg`: those of a query that found nothing are `none`.
pub record MessageQueryResult : Type 0 where
  pub msg_id : String
  pub sender_id : String
  pub receiver_id : String
  pub key_id : ℤ
  pub msg_type : String
  pub ciphertext : String
  pub nonce : String
  pub tag : String
  pub send_time : String
  pub status : ℤ

-- MessageSummaryInfo.
pub record MessageSummaryInfo : Type 0 where
  pub msg_id : String
  pub sender_id : String
  pub receiver_id : String
  pub key_id : ℤ
  pub msg_type : String
  pub send_time : String
  pub status : ℤ

-- The nine columns that queryMessageLogById reads.
unfoldable pub read_message : String → Row → MessageQueryResult
read_message msg_id row =
    let r1 = next_columns row in
    let r2 = next_columns r1 in
    let r3 = next_columns r2 in
    let r4 = next_columns r3 in
    let r5 = next_columns r4 in
    let r6 = next_columns r5 in
    let r7 = next_columns r6 in
    record {
      msg_id = msg_id;
      sender_id = column_text (column row);
      receiver_id = column_text (column r1);
      key_id = column_int (column r2);
      msg_type = column_text (column r3);
      ciphertext = column_text (column r4);
      nonce = column_text (column r5);
      tag = column_text (column r6);
      send_time = column_text (column r7);
      status = column_int (column (next_columns r7));
    }

-- The seven texts of a row that queryRecentMessagesBySender of mysqlOP copies: NULL becomes "".
unfoldable pub copy_row : Row → List String
copy_row row =
    let r1 = next_columns row in
    let r2 = next_columns r1 in
    let r3 = next_columns r2 in
    let r4 = next_columns r3 in
    let r5 = next_columns r4 in
    column_text (column row)
    ∷ column_text (column r1)
    ∷ column_text (column r2)
    ∷ column_text (column r3)
    ∷ column_text (column r4)
    ∷ column_text (column r5)
    ∷ column_text (column (next_columns r5))
    ∷ []

-- `text.empty() ? 0 : atoi(text)`.
abbrev pub int_or_zero : String → ℤ
int_or_zero text = if is_empty text then pos 0 else atoi text

-- A copied row as a summary, if it has seven columns.
unfoldable pub summarise : List String → Option MessageSummaryInfo
summarise (msg_id ∷ sender ∷ receiver ∷ key_id ∷ msg_type ∷ send_time ∷ status ∷ []) =
    some (record {
      msg_id = msg_id;
      sender_id = sender;
      receiver_id = receiver;
      key_id = int_or_zero key_id;
      msg_type = msg_type;
      send_time = send_time;
      status = int_or_zero status;
    })
summarise _ = none

-- The loop of the repository over the copied rows: rows of another size are skipped.
unfoldable pub collect : List (List String) → List MessageSummaryInfo
collect [] = []
collect (row ∷ table) =
    let rest = collect table in elim (summarise row) [ none ↦ rest | some info ↦ info ∷ rest ]

abbrev pub is_absent : Handle → Bool
is_absent absent = true
is_absent _ = false

-- An empty node ID is stored as NULL.
abbrev pub audit_statement : AuditLogRecord → Statement
audit_statement entry =
    insert_audit
      (record { entry = entry; node = if is_empty entry.node_id then none else some entry.node_id })

module _ {E H : Type 0} (o : Outside E H) where
  unfoldable pub insert_message_log : MessageLogRecord → Server E H Bool
  insert_message_log message = do
    reply ← run o (insert_message message)
    pure (not (is_failed reply))

  unfoldable pub insert_audit_log : AuditLogRecord → Server E H Bool
  insert_audit_log entry = do reply ← run o (audit_statement entry); pure (not (is_failed reply))

  unfoldable pub query_message_log_by_id : String → Server E H (Option MessageQueryResult)
  query_message_log_by_id msg_id = do
    reply ← run o (select_message msg_id)
    pure (elim (result_set reply) [
      | none ↦ none
      | some rs ↦ elim (first_row rs) [ none ↦ none | some row ↦ some (read_message msg_id row) ]
    ])

  unfoldable pub query_recent_rows : String → ℤ → Server E H (Option (List (List String)))
  query_recent_rows sender limit =
      if is_positive limit
      then (do
        reply ← run o (select_recent sender limit)
        pure (elim (result_set reply) [ none ↦ none | some rs ↦ some (map copy_row rs) ]))
      else pure none

  -- MessageRepository.
  unfoldable pub repository_insert : MessageLogRecord → Server E H Bool
  repository_insert message w = if is_absent w.db then (false, w) else insert_message_log message w

  unfoldable pub query_message_by_id : String → Server E H (Option MessageQueryResult)
  query_message_by_id msg_id w =
      if is_absent w.db then (none, w) else query_message_log_by_id msg_id w

  unfoldable pub query_recent_messages_by_sender :
      String → ℤ → Server E H (Option (List MessageSummaryInfo))
  query_recent_messages_by_sender sender limit w =
      if is_absent w.db
      then (none, w)
      else (do
        table ← query_recent_rows sender limit
        pure (elim table [ none ↦ none | some rows ↦ some (collect rows) ]))
          w

  -- AuditService: the entry as a record, field by field, and with the time of the database object.
  unfoldable pub log_record : AuditLogRecord → Server E H Bool
  log_record entry w = if is_absent w.db then (false, w) else insert_audit_log entry w

  unfoldable pub log_action_at :
      String → String → String → String → ℤ → String → String → Server E H Bool
  log_action_at log_id node action target result detail time = log_record (record {
    log_id = log_id;
    node_id = node;
    action = action;
    target_id = target;
    result = result;
    detail = detail;
    create_time = time;
  })

  unfoldable pub log_action : String → String → String → String → ℤ → String → Server E H Bool
  log_action log_id node action target result detail w =
      if is_absent w.db
      then (false, w)
      else (do
        time ← on_host o.local_time
        log_action_at log_id node action target result detail time)
          w
