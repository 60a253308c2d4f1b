-- ===== src/QueryService/Access.antt =====
-- MessageQueryService.cpp, `handleQueryMessage`: who may read a stored message, and what the answer
-- says of it.
use encrypted_transmission_d.Prelude.{
  c_str, String, true, false, Option, none, some, List, ◌≡◌, ◌≢◌, refl, subst, ◌⊎◌, inl, inr, pos,
  arith, eq_iff, ◌<>◌, Option-cases,
}
use encrypted_transmission_d.Database.{MessageLogRecord}
use encrypted_transmission_d.Database.Effect.{Collation}
use encrypted_transmission_d.Packet.{
  Header, RequestPacket, ResultCode, QueryMessageResponse, result_success, result_invalid_request,
  result_msg_not_found, cmd_query_msg_resp,
}
use encrypted_transmission_d.Outside.{Outside, World}
use encrypted_transmission_d.Outside.Laws.{View, IsLawful, Among}
use encrypted_transmission_d.Outside.Rules.{Post, Post-if, tables_of}
use encrypted_transmission_d.Outside.Quiet.{Quiet, Quiet-trans}
use encrypted_transmission_d.MessageStore.{MessageQueryResult}
use encrypted_transmission_d.MessageService.Keys.{header_of}
use encrypted_transmission_d.QueryService.Validation.{queried_id, validate_query_request}
use encrypted_transmission_d.QueryService.{
  pending_query, is_party, parse_date_time_to_timestamp, build_query_header, answer_query,
  show_message, report_found, query_valid, validate_and_query, handle_query_message,
}
use encrypted_transmission_d.QueryService.Reads.{
  shown, query_message_by_id-FromStore, build_query_header-IsQuiet, answer_query-IsQuiet,
}

-- The answer says nothing of a stored message.
pub record Hidden (resp : QueryMessageResponse) : Type 0 where
  pub code : resp.code ≢ result_success
  pub sender : resp.sender_id ≡ ""
  pub receiver : resp.receiver_id ≡ ""
  pub key : resp.key_id ≡ pos 0
  pub kind : resp.msg_type ≡ ""
  pub time : resp.send_time ≡ pos 0
  pub status : resp.status ≡ pos 0

-- The answer is what the store holds of a message with the ID, each text up to its first NUL, and the
-- requester is its sender or its receiver so cut.
pub record Disclosed (c : Collation) (requester id : String) (ms : List MessageLogRecord)
    (resp : QueryMessageResponse) : Type 0 where
  pub message : MessageLogRecord
  pub stored : Among message ms
  pub named : c.same message.msg_id id ≡ true
  pub party : (requester ≡ c_str message.sender_id) ⊎ (requester ≡ c_str message.receiver_id)
  pub code : resp.code ≡ result_success
  pub sender : resp.sender_id ≡ c_str message.sender_id
  pub receiver : resp.receiver_id ≡ c_str message.receiver_id
  pub key : resp.key_id ≡ message.sender_key_id
  pub kind : resp.msg_type ≡ c_str message.msg_type
  pub status : resp.status ≡ message.status

pending-Hidden :
    (header : Header) (code : ResultCode) (message id : String)
    → code ≢ result_success
    → Hidden
        (record (pending_query header) { code = code; message = message; server_message_id = id })
pending-Hidden header code message id refused = record {
  code = refused;
  sender = refl;
  receiver = refl;
  key = refl;
  kind = refl;
  time = refl;
  status = refl;
}

module _ {E H : Type 0} (o : Outside E H) (c : Collation) (v : View E) (l : IsLawful o c v)
    (server_id : String) where
  abbrev pub Reported :
      String
      → String
      → List MessageLogRecord
      → World E H
      → QueryMessageResponse
      → World E H
      → Type 0
  Reported requester id ms w resp w' =
      Quiet v w w' × (Hidden resp ⊎ Disclosed c requester id ms resp)

  module _ (requester id : String) (ms : List MessageLogRecord) where
    hide :
        (resp : QueryMessageResponse) (target : String) (detail : String) (w : World E H)
        → v.in_transaction w.engine ≡ false
        → Hidden resp
        → Post
            (answer_query o server_id resp requester target (pos 0) detail)
            w
            (Reported requester id ms w)
    unfolding answer_query
    hide resp target detail w idle hidden = (
      (answer_query-IsQuiet o c v l server_id resp requester target (pos 0) detail).at w idle,
      inl hidden,
    )

    show_message-Reported :
        (header : Header) (m : MessageLogRecord) (w : World E H)
        → v.in_transaction w.engine ≡ false
        → Among m ms
        → c.same m.msg_id id ≡ true
        → Post
            (show_message o server_id (pending_query header) requester id (shown id m))
            w
            (Reported requester id ms w)
    unfolding show_message answer_query
    show_message-Reported header m w idle stored named =
        Post-if (is_party requester (shown id m)) _ _ w (Reported requester id ms w)
          (λ yes_case. (
            (answer_query-IsQuiet o c v l server_id (granted header m) requester id (pos 1)
                  "query message success").at
                w idle,
            inr (record {
              message = m;
              stored = stored;
              named = named;
              party = party yes_case;
              code = refl;
              sender = refl;
              receiver = refl;
              key = refl;
              kind = refl;
              status = refl;
            }),
          ))
          (λ no_case. hide _ id "permission denied" w idle (pending-Hidden header _ _ _ (cc)))
      where
        granted : Header → MessageLogRecord → QueryMessageResponse
        granted header m = record (pending_query header) {
          code = result_success;
          message = "query message success";
          server_message_id = id;
          sender_id = c_str m.sender_id;
          receiver_id = c_str m.receiver_id;
          key_id = m.sender_key_id;
          msg_type = c_str m.msg_type;
          send_time = parse_date_time_to_timestamp o (c_str m.send_time);
          status = m.status;
        }

        party :
            is_party requester (shown id m) ≡ true
            → (requester ≡ c_str m.sender_id) ⊎ (requester ≡ c_str m.receiver_id)
        party h =
            ground
              (arith, eq_iff requester (c_str m.sender_id), eq_iff requester (c_str m.receiver_id))

  Reported-after :
      (requester id : String) {w w' w'' : World E H} (resp : QueryMessageResponse)
      → Quiet v w w'
      → Reported requester id (tables_of v w').messages w' resp w''
      → Reported requester id (tables_of v w).messages w resp w''
  Reported-after requester id resp q (q', h) = (
    Quiet-trans v q q',
    subst (λ ms. Hidden resp ⊎ Disclosed c requester id ms resp) q.messages h,
  )

  report_found-Reported :
      (requester id : String) (header : Header) (w w' : World E H)
      (found : Option MessageQueryResult)
      → Quiet v w w'
      → (found ≡ none)
        ⊎ ((m : MessageLogRecord) × Among m (tables_of v w).messages
            × (c.same m.msg_id id ≡ true)
            × (found ≡ some (shown id m)))
      → Post
          (report_found o server_id (pending_query header) requester id found)
          w'
          (Reported requester id (tables_of v w).messages w)
  unfolding report_found
  report_found-Reported requester id header w w' found q (inl e) =
      let (q', h) =
        hide requester id (tables_of v w).messages _ id "message not found" w' q.idle
          (pending-Hidden header result_msg_not_found "message not found" id (cc)) in
      rw (e, report_found) (Quiet-trans v q q', h)
  report_found-Reported requester id header w w' found q (inr (m, stored, named, e)) =
      let (q', h) =
        show_message-Reported requester id (tables_of v w).messages header m w' q.idle stored
          named in
      rw (e, report_found) (Quiet-trans v q q', h)

  validate_and_query-Reported :
      (packet : RequestPacket) (header : Header) (w : World E H)
      → v.in_transaction w.engine ≡ false
      → Post (validate_and_query o server_id (pending_query header) packet) w (
          Reported (header_of packet).sender_id (queried_id packet.body) (tables_of v w).messages w)
  unfolding validate_and_query query_valid
  validate_and_query-Reported packet header w idle =
      elim (Option-cases (validate_query_request packet)) [
        | inl e ↦
            let (q, found) =
              query_message_by_id-FromStore o c v l (queried_id packet.body) w idle in
            rw (e, validate_and_query)
              (report_found-Reported (header_of packet).sender_id (queried_id packet.body) header w
                _ _ q found)
        | inr (error, e) ↦
            rw (e, validate_and_query)
              (hide (header_of packet).sender_id (queried_id packet.body) (tables_of v w).messages _
                "" ("invalid query request: " <> error) w idle
                (pending-Hidden header result_invalid_request error "" (cc)))
      ]

  -- With no transaction open, `handleQueryMessage` either answers with a code other than success and
  -- with none of the fields of a message, or it answers with the fields of a stored message whose ID
  -- is that of the request in the collation of the database, each text up to its first NUL, and the
  -- requester is its sender or its receiver, up to the first NUL of that. Both ways no message is added or changed, and the keys keep to their lifecycle.
  pub handle_query_message-Reported :
      (packet : RequestPacket) (w : World E H)
      → v.in_transaction w.engine ≡ false
      → Post (handle_query_message o server_id packet) w (
          Reported (header_of packet).sender_id (queried_id packet.body) (tables_of v w).messages w)
  unfolding handle_query_message
  handle_query_message-Reported packet w idle =
      Reported-after (header_of packet).sender_id (queried_id packet.body) _ q (
        validate_and_query-Reported packet
          (build_query_header o server_id packet cmd_query_msg_resp w).0 _ q.idle)
    where
      q : Quiet v w (build_query_header o server_id packet cmd_query_msg_resp w).1
      q = (build_query_header-IsQuiet o c v l server_id packet cmd_query_msg_resp).at w idle
