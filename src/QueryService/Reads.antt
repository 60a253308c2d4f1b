-- ===== src/QueryService/Reads.antt =====
-- MessageQueryService.cpp, with what it calls of MessageRepository.cpp and mysqlOP.cpp: the rows
-- behind an answer, and what the calls leave alone.
use encrypted_transmission_d.Prelude.{
  c_str, String, true, false, Option, none, some, List, [], ◌∷◌, map, ◌≡◌, refl, ap, ◌⊎◌, inl, inr,
  ℤ, atoi-to_string, select, Bool-cases,
}
use encrypted_transmission_d.Database.{MessageLogRecord, Reply, select_message, rows}
use encrypted_transmission_d.Database.Effect.{Collation, effect, answer, message_row}
use encrypted_transmission_d.Packet.{
  CommandType, RequestPacket, QueryMessageResponse, QueryMessageListResponse,
}
use encrypted_transmission_d.Outside.{Outside, World}
use encrypted_transmission_d.Outside.Laws.{View, IsLawful, Among}
use encrypted_transmission_d.Outside.Rules.{Post, tables_of, run_idle, RanIdle}
use encrypted_transmission_d.Outside.Quiet.{Quiet, IsQuiet, quiet_rules, IsQuiet-pure}
use encrypted_transmission_d.KeyStore.{result_set, first_row}
use encrypted_transmission_d.KeyStore.Lifecycle.{Evolves-refl}
use encrypted_transmission_d.MessageStore.{
  MessageQueryResult, read_message, is_absent, query_message_log_by_id, query_message_by_id,
}
use encrypted_transmission_d.MessageService.Calls.{log_action-IsQuiet}
use encrypted_transmission_d.QueryService.{
  build_query_header, generate_query_audit_id, query_audit, answer_query, answer_list,
}

-- The fields of a stored message that the sender's query shows; the texts of a row end at their first NUL.
abbrev pub shown : String → MessageLogRecord → MessageQueryResult
shown id m = record {
  msg_id = id;
  sender_id = c_str m.sender_id;
  receiver_id = c_str m.receiver_id;
  key_id = m.sender_key_id;
  msg_type = c_str m.msg_type;
  ciphertext = c_str m.sender_ciphertext;
  nonce = c_str m.sender_nonce;
  tag = c_str m.sender_tag;
  send_time = c_str m.send_time;
  status = m.status;
}

read_message-message_row :
    (id : String) (m : MessageLogRecord) → read_message id (message_row m) ≡ shown id m
unfolding read_message
read_message-message_row id m = rw (atoi-to_string, atoi-to_string)

-- The first row of a result set is that of a stored message with the ID.
abbrev FromStore : Collation → String → List MessageLogRecord → Option MessageQueryResult → Type 0
FromStore c id ms found =
    (found ≡ none)
    ⊎ ((m : MessageLogRecord) × Among m ms
        × (c.same m.msg_id id ≡ true)
        × (found ≡ some (shown id m)))

abbrev read_first : String → Reply → Option MessageQueryResult
read_first id reply = elim (result_set reply) [
  | none ↦ none
  | some rs ↦ elim (first_row rs) [ none ↦ none | some row ↦ some (read_message id row) ]
]

first-FromStore :
    (c : Collation) (id : String) (ms : List MessageLogRecord)
    → FromStore c id ms
        (read_first id (rows (map message_row (select (λ m. c.same m.msg_id id) ms))))
first-FromStore c id [] = inl refl
first-FromStore c id (m ∷ ms) = elim (Bool-cases (c.same m.msg_id id)) [
  | inl hit ↦ rw hit (inr (m, inl refl, hit, ap some (read_message-message_row id m)))
  | inr miss ↦ rw miss (later (first-FromStore c id ms))
]
  where
    later :
        {found : Option MessageQueryResult}
        → FromStore c id ms found
        → FromStore c id (m ∷ ms) found
    later (inl e) = inl e
    later (inr (n, here, same, e)) = inr (n, inr here, same, e)

module _ {E H : Type 0} (o : Outside E H) (c : Collation) (v : View E) (l : IsLawful o c v) where
  read-FromStore :
      (id : String) (w w' : World E H) (reply : Reply)
      → RanIdle o c v (select_message id) w reply w'
      → Quiet v w w' × FromStore c id (tables_of v w).messages (read_first id reply)
  unfolding effect answer
  read-FromStore id w w' reply (same, idle, cases) = elim cases [
    | inl (f, t) ↦ (
      record {
        db = db;
        idle = idle;
        messages = ap (λ d. d.messages) t;
        keys = rw t (Evolves-refl _);
      },
      inl (rw f refl),
    )
    | inr (t, inl a) ↦ (
      record {
        db = db;
        idle = idle;
        messages = ap (λ d. d.messages) t;
        keys = rw t (Evolves-refl _);
      },
      rw a (first-FromStore c id (tables_of v w).messages),
    )
    | inr (t, inr n) ↦ (
      record {
        db = db;
        idle = idle;
        messages = ap (λ d. d.messages) t;
        keys = rw t (Evolves-refl _);
      },
      inl (rw n.0 refl),
    )
  ]
    where
      db : w'.db ≡ w.db
      db = ap (λ (x : World E H). x.db) same

  pub query_message_by_id-FromStore :
      (id : String) (w : World E H)
      → v.in_transaction w.engine ≡ false
      → Post
          (query_message_by_id o id)
          w
          (λ found w'. Quiet v w w' × FromStore c id (tables_of v w).messages found)
  unfolding query_message_by_id query_message_log_by_id
  query_message_by_id-FromStore id w idle = elim (Bool-cases (is_absent w.db)) [
    | inl e ↦ rw (e, query_message_by_id) ((IsQuiet-pure {H = H} {v = v} false).at w idle, inl refl)
    | inr e ↦
        rw (e, query_message_by_id)
          (read-FromStore id w _ _ (run_idle o c v l (select_message id) w refl idle))
  ]

  module _ (server_id : String) where
    pub build_query_header-IsQuiet :
        (packet : RequestPacket) (command : CommandType)
        → IsQuiet v (build_query_header o server_id packet command)
    unfolding build_query_header
    build_query_header-IsQuiet packet command = search quiet_rules

    generate_query_audit_id-IsQuiet : IsQuiet v (generate_query_audit_id o server_id)
    unfolding generate_query_audit_id
    generate_query_audit_id-IsQuiet = record {
      at = λ w i. record { db = refl; idle = i; messages = refl; keys = Evolves-refl _ };
    }

    query_audit-IsQuiet :
        (requester action target : String) (result : ℤ) (detail : String)
        → IsQuiet v (query_audit o server_id requester action target result detail)
    unfolding query_audit
    query_audit-IsQuiet requester action target result detail =
        search (quiet_rules, generate_query_audit_id-IsQuiet, log_action-IsQuiet)

    pub answer_query-IsQuiet :
        (response : QueryMessageResponse) (requester target : String) (result : ℤ) (detail : String)
        → IsQuiet v (answer_query o server_id response requester target result detail)
    unfolding answer_query
    answer_query-IsQuiet response requester target result detail =
        search (quiet_rules, query_audit-IsQuiet)

    pub answer_list-IsQuiet :
        (response : QueryMessageListResponse) (requester target : String) (result : ℤ)
        (detail : String)
        → IsQuiet v (answer_list o server_id response requester target result detail)
    unfolding answer_list
    answer_list-IsQuiet response requester target result detail =
        search (quiet_rules, query_audit-IsQuiet)
