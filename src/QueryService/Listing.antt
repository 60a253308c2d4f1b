-- ===== src/QueryService/Listing.antt =====
-- MessageQueryService.cpp, `handleQueryMessageList`: whose messages are listed, and how many.
use encrypted_transmission_d.Prelude.{
  String, not, ◌≤◌, Option, none, some, List, [], ◌≡◌, ◌≢◌, refl, ◌⊎◌, inl, inr, ℤ, pos, negsuc,
  to_count, is_positive, exceeds, arith, ◌==◌, eq_iff, is_empty, Option-cases, Bool-cases,
  if◌then◌else◌,
}
use encrypted_transmission_d.Packet.{
  Header, RequestPacket, RequestBody, query_msg_list_req, QueryMessageListResponse, result_success,
  cmd_query_msg_list_resp,
}
use encrypted_transmission_d.Outside.{Outside, World}
use encrypted_transmission_d.Outside.Rules.{Post, Post-if}
use encrypted_transmission_d.MessageStore.{MessageSummaryInfo}
use encrypted_transmission_d.MessageService.Keys.{header_of}
use encrypted_transmission_d.QueryService.Validation.{
  queried_sender, queried_limit, validate_query_list_request, validate_list_body,
  validate_list_fields,
}
use encrypted_transmission_d.QueryService.{
  pending_list, build_query_header, answer_list, report_list, list_valid, validate_and_list,
  handle_query_message_list,
}

-- The request asks for the requester's own messages, between one and a hundred of them.
pub record IsAllowed (packet : RequestPacket) : Type 0 where
  pub own : queried_sender packet.body ≡ (header_of packet).sender_id
  pub positive : 1 ≤ to_count (queried_limit packet.body)
  pub bounded : to_count (queried_limit packet.body) ≤ 100

-- What the validation says of the limit alone.
abbrev limit_error : ℤ → Option String
limit_error limit =
    if not (is_positive limit)
    then some "limit must be greater than 0"
    else if exceeds limit 100
    then some "limit must not exceed 100"
    else none

limit_error-none :
    (limit : ℤ) → limit_error limit ≡ none → (1 ≤ to_count limit) × (to_count limit ≤ 100)
limit_error-none (pos n) h = (ground arith, ground arith)
limit_error-none (negsuc n) h = absurd (cc)

-- The limits of a request that passes the validation.
fields-limits :
    (requester sender : String) (limit : ℤ)
    → validate_list_fields requester sender limit ≡ none
    → (1 ≤ to_count limit) × (to_count limit ≤ 100)
unfolding validate_list_fields
fields-limits requester sender limit h = elim (Bool-cases (is_empty requester)) [
  | inl e ↦ absurd (let h' = rw e at h in cc)
  | inr e ↦ elim (Bool-cases (is_empty sender)) [
    | inl e' ↦ absurd (let h' = rw e' at (rw e at h) in cc)
    | inr e' ↦ limit_error-none limit (rw e' at (rw e at h))
  ]
]

body-limits :
    (requester : String) (body : RequestBody)
    → validate_list_body requester body ≡ none
    → (1 ≤ to_count (queried_limit body)) × (to_count (queried_limit body) ≤ 100)
unfolding validate_list_body
body-limits requester (query_msg_list_req sender limit) h = fields-limits requester sender limit h
body-limits requester _ h = absurd (cc)

request-limits :
    (packet : RequestPacket)
    → validate_query_list_request packet ≡ none
    → (1 ≤ to_count (queried_limit packet.body)) × (to_count (queried_limit packet.body) ≤ 100)
unfolding validate_query_list_request
request-limits packet h = elim (Option-cases packet.header) [
  | inl e ↦ absurd (let h' = rw e at h in cc)
  | inr (header, e) ↦ body-limits header.sender_id packet.body (rw e at h)
]

module _ {E H : Type 0} (o : Outside E H) (server_id : String) (packet : RequestPacket) where
  -- The answer lists nothing, or the request was allowed.
  abbrev pub Listed : QueryMessageListResponse → World E H → Type 0
  Listed resp w =
      ((resp.code ≢ result_success) × (resp.messages ≡ []))
      ⊎ ((resp.code ≡ result_success) × IsAllowed packet)

  report_list-Listed :
      (header : Header) (requester sender : String) (stored : Option (List MessageSummaryInfo))
      (w : World E H)
      → IsAllowed packet
      → Post (report_list o server_id (pending_list header) requester sender stored) w Listed
  unfolding report_list answer_list
  report_list-Listed header requester sender none w allowed = inl (cc, refl)
  report_list-Listed header requester sender (some stored) w allowed = inr (refl, allowed)

  list_valid-Listed :
      (header : Header) (w : World E H)
      → (1 ≤ to_count (queried_limit packet.body)) × (to_count (queried_limit packet.body) ≤ 100)
      → Post
          (list_valid o server_id
            (pending_list header)
            (header_of packet).sender_id
            (queried_sender packet.body)
            (queried_limit packet.body))
          w
          Listed
  unfolding list_valid answer_list
  list_valid-Listed header w (positive, bounded) =
      Post-if (not (queried_sender packet.body == (header_of packet).sender_id)) _ _ w Listed
        (λ other. inl (cc, refl))
        (λ own.
          report_list-Listed header (header_of packet).sender_id (queried_sender packet.body) _ _
            (record {
              own =
                  ground (arith, eq_iff (queried_sender packet.body) (header_of packet).sender_id);
              positive = positive;
              bounded = bounded;
            }))

  validate_and_list-Listed :
      (header : Header) (w : World E H)
      → Post (validate_and_list o server_id (pending_list header) packet) w Listed
  unfolding validate_and_list answer_list
  validate_and_list-Listed header w = elim (Option-cases (validate_query_list_request packet)) [
    | inl e ↦ rw (e, validate_and_list) (list_valid-Listed header w (request-limits packet e))
    | inr (error, e) ↦ rw (e, validate_and_list) (inl (cc, refl))
  ]

  -- `handleQueryMessageList` either answers with a code other than success and an empty list, or it
  -- answers success, and then the sender that the request names is the requester itself and its limit
  -- is between 1 and 100.
  pub handle_query_message_list-Listed :
      (w : World E H) → Post (handle_query_message_list o server_id packet) w Listed
  unfolding handle_query_message_list
  handle_query_message_list-Listed w =
      validate_and_list-Listed (build_query_header o server_id packet cmd_query_msg_list_resp w).0
        (build_query_header o server_id packet cmd_query_msg_list_resp w).1
