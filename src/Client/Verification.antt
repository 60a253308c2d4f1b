-- ===== src/Client/Verification.antt =====
-- ClientOP.cpp, keyVerification and keyLogout: the local key follows what the server answers.
use encrypted_transmission_d.Prelude.{
  Bool, not, ℕ, true, false, ◌||◌, none, List, pos, int_eq, ◌≡◌, refl, inl, inr, Bool-cases,
}
use encrypted_transmission_d.Packet.{cmd_key_check_req, cmd_key_logout_req}
use encrypted_transmission_d.Codec.{
  Protobuf, key_check_info, key_logout_info, ResponseBody, no_body, send_msg_resp, query_msg_resp,
  query_msg_list_resp, key_op_resp, encode_request, decode_response,
}
use encrypted_transmission_d.Outside.{Outside}
use encrypted_transmission_d.Transport.{Network, frame_of}
use encrypted_transmission_d.Client.Base.{
  ClientInfo, Process, pure, then_run, Exchanged, not_connected, not_sent, not_received, received,
  cache_read, build_key_header, generate_client_request_id,
}
use encrypted_transmission_d.Client.Keys.{
  is_success, lacks_ids, disable_key, check_reply, accept_check, request_check, key_verification,
  logout_reply, accept_logout, request_logout, key_logout,
}
use encrypted_transmission_d.Client.Rules.{Ends, Keeps, IsWired, converse-Answers}
use encrypted_transmission_d.Client.Following.{
  refuses, approves, read_state, header_at, node_at, Came, Follows, Follows-Keeps, decided-Follows,
  unanswered,
}

module _ {E H : Type 0} (o : Outside E H) (info : ClientInfo) where
  -- Where the two operations ask the server.
  abbrev pub checks : Process H → Bool
  checks w = not (lacks_ids (node_at o info w) || int_eq (node_at o info w).status (pos 0))

  abbrev pub logs_out : Process H → Bool
  logs_out w = int_eq (node_at o info w).status (pos 1)

module _ {E H : Type 0} (o : Outside E H) (p : Protobuf (List ℕ)) (info : ClientInfo) where
  abbrev pub check_request : Process H → List ℕ
  check_request w = encode_request p (
      key_check_info (header_at o info cmd_key_check_req (read_state o w))
        (node_at o info w).seckey_id)

  abbrev pub logout_request : Process H → List ℕ
  logout_request w = encode_request p (
      key_logout_info (header_at o info cmd_key_logout_req (read_state o w))
        (node_at o info w).seckey_id)

module _ {E H : Type 0} (o : Outside E H) (p : Protobuf (List ℕ)) (net : Network H)
    (signals : H → ℕ) (wired : IsWired net signals) (info : ClientInfo) where
  check_reply_lem :
      (body : ResponseBody) (w : Process H)
      → check_reply o p info body w
        ≡ elim (refuses body) [ true ↦ disable_key o p info w | false ↦ pure tt w ]
  unfolding check_reply
  check_reply_lem no_body w = refl
  check_reply_lem (send_msg_resp a b c d e) w = refl
  check_reply_lem (query_msg_resp a b c d e f g h i) w = refl
  check_reply_lem (query_msg_list_resp a b c) w = refl
  check_reply_lem (key_op_resp code b c d) w = elim (Bool-cases (is_success code)) [
    | inl ok ↦ rw ok refl
    | inr bad ↦ rw bad refl
  ]

  logout_reply_lem :
      (body : ResponseBody) (w : Process H)
      → logout_reply o p info body w
        ≡ elim (approves body) [ true ↦ disable_key o p info w | false ↦ pure tt w ]
  unfolding logout_reply
  logout_reply_lem no_body w = refl
  logout_reply_lem (send_msg_resp a b c d e) w = refl
  logout_reply_lem (query_msg_resp a b c d e f g h i) w = refl
  logout_reply_lem (query_msg_list_resp a b c) w = refl
  logout_reply_lem (key_op_resp code b c d) w = elim (Bool-cases (is_success code)) [
    | inl ok ↦ rw ok refl
    | inr bad ↦ rw bad refl
  ]

  pub accept_check-Follows :
      {T : Type 0} (request : List ℕ) (u w : Process H) (ex : Exchanged)
      → Came o p net signals info refuses true request true u ex w
      → Keeps u w
      → Ends T
          (accept_check o p info ex w)
          (λ a w'. Follows o p net signals info refuses true request u w')
  unfolding accept_check
  accept_check-Follows request u w (received bytes) came k =
      rw (check_reply_lem (decode_response p bytes).body w)
        (decided-Follows o p net signals info refuses true request u w bytes came k)
  accept_check-Follows request u w not_connected came k =
      unanswered o p net signals info refuses true request u w not_connected came refl k
  accept_check-Follows request u w not_sent came k =
      unanswered o p net signals info refuses true request u w not_sent came refl k
  accept_check-Follows request u w not_received came k =
      unanswered o p net signals info refuses true request u w not_received came refl k

  accept_logout-Follows :
      {T : Type 0} (request : List ℕ) (u w : Process H) (ex : Exchanged)
      → Came o p net signals info approves true request true u ex w
      → Keeps u w
      → Ends T
          (accept_logout o p info ex w)
          (λ a w'. Follows o p net signals info approves true request u w')
  unfolding accept_logout
  accept_logout-Follows request u w (received bytes) came k =
      rw (logout_reply_lem (decode_response p bytes).body w)
        (decided-Follows o p net signals info approves true request u w bytes came k)
  accept_logout-Follows request u w not_connected came k =
      unanswered o p net signals info approves true request u w not_connected came refl k
  accept_logout-Follows request u w not_sent came k =
      unanswered o p net signals info approves true request u w not_sent came refl k
  accept_logout-Follows request u w not_received came k =
      unanswered o p net signals info approves true request u w not_received came refl k

  request_check-Follows :
      (w : Process H)
      → Ends
          (frame_of (check_request o p info w) ≡ none)
          (request_check o p net signals info (node_at o info w) (read_state o w))
          (λ a w'. Follows o p net signals info refuses true (check_request o p info w) w w')
  unfolding request_check build_key_header generate_client_request_id then_run
  request_check-Follows w =
      converse-Answers net signals wired info (check_request o p info w) (accept_check o p info) _ _
        (λ a x y. Follows-Keeps o p net signals info refuses true (check_request o p info w) w x y)
        (λ ex w' came k.
          accept_check-Follows (check_request o p info w) w w' ex came
            (record { slots = k.slots; last = k.last }))

  request_logout-Follows :
      (w : Process H)
      → Ends
          (frame_of (logout_request o p info w) ≡ none)
          (request_logout o p net signals info (node_at o info w) (read_state o w))
          (λ a w'. Follows o p net signals info approves true (logout_request o p info w) w w')
  unfolding request_logout build_key_header generate_client_request_id then_run
  request_logout-Follows w =
      converse-Answers net signals wired info (logout_request o p info w) (accept_logout o p info) _
        _
        (λ a x y.
          Follows-Keeps o p net signals info approves true (logout_request o p info w) w x y)
        (λ ex w' came k.
          accept_logout-Follows (logout_request o p info w) w w' ex came
            (record { slots = k.slots; last = k.last }))

  -- On a network whose sockets take bytes as said, keyVerification returns, unless its request is too
  -- long for a frame. It asks the server where the cache holds a key for the pair that is not disabled;
  -- and the local key is then disabled exactly where what came of that exchange is a reply to a key
  -- operation that reports anything but success, as far as the segment can be attached after it.
  -- Nothing else of the cache changes.
  pub key_verification-Follows :
      (w : Process H)
      → Ends
          (frame_of (check_request o p info w) ≡ none)
          (key_verification o p net signals info w)
          (λ a w'.
            Follows o p net signals info refuses (checks o info w) (check_request o p info w) w w')
  unfolding key_verification cache_read then_run
  key_verification-Follows w =
      elim (Bool-cases (lacks_ids (node_at o info w) || int_eq (node_at o info w).status (pos 0))) [
        | inl unusable ↦ rw unusable (
            unanswered o p net signals info refuses false (check_request o p info w) w
              (read_state o w) not_connected refl refl (record { slots = refl; last = refl }))
        | inr usable ↦ rw usable (request_check-Follows w)
      ]

  -- The same of keyLogout: it asks where the cache holds a key for the pair that is marked usable, and
  -- the key is disabled exactly where the reply reports success.
  pub key_logout-Follows :
      (w : Process H)
      → Ends
          (frame_of (logout_request o p info w) ≡ none)
          (key_logout o p net signals info w)
          (λ a w'.
            Follows o p net signals info approves
              (logs_out o info w)
              (logout_request o p info w)
              w
              w')
  unfolding key_logout cache_read then_run
  key_logout-Follows w = elim (Bool-cases (int_eq (node_at o info w).status (pos 1))) [
    | inl active ↦ rw active (request_logout-Follows w)
    | inr inactive ↦ rw inactive (
        unanswered o p net signals info approves false (logout_request o p info w) w
          (read_state o w) not_connected refl refl (record { slots = refl; last = refl }))
  ]
