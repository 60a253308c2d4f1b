-- ===== src/Codec/Casts.antt =====
-- MessageV2.proto: the numbers of the enumerators. The structs of the codecs hold an enumerator as an
-- `int`, and initMessage casts it back; a number without an enumerator never stands in a struct, and
-- the cast is then that of 0.
use encrypted_transmission_d.Prelude.{ℕ, eqb, ◌≡◌, refl, if◌then◌else◌}
use encrypted_transmission_d.Packet.{
  CommandType, cmd_unknown, cmd_send_msg_req, cmd_send_msg_resp, cmd_query_msg_req,
  cmd_query_msg_resp, cmd_query_msg_list_req, cmd_query_msg_list_resp, cmd_key_agree_req,
  cmd_key_agree_resp, cmd_key_check_req, cmd_key_check_resp, cmd_key_logout_req,
  cmd_key_logout_resp, ResultCode, result_unknown, result_success, result_failed,
  result_key_not_found, result_key_invalid, result_decrypt_failed, result_invalid_request,
  result_msg_not_found, result_key_agree_failed, result_key_check_failed, result_key_logout_failed,
  MessageType, msg_type_unknown, msg_type_text, DeliveryStatus, delivery_unknown, delivery_accepted,
  delivery_rejected,
}

unfoldable pub command_number : CommandType → ℕ
command_number cmd_unknown = 0
command_number cmd_send_msg_req = 1
command_number cmd_send_msg_resp = 2
command_number cmd_query_msg_req = 3
command_number cmd_query_msg_resp = 4
command_number cmd_query_msg_list_req = 5
command_number cmd_query_msg_list_resp = 6
command_number cmd_key_agree_req = 7
command_number cmd_key_agree_resp = 8
command_number cmd_key_check_req = 9
command_number cmd_key_check_resp = 10
command_number cmd_key_logout_req = 11
command_number cmd_key_logout_resp = 12

unfoldable pub command_of : ℕ → CommandType
command_of n =
    if eqb n 1
    then cmd_send_msg_req
    else if eqb n 2
    then cmd_send_msg_resp
    else if eqb n 3
    then cmd_query_msg_req
    else if eqb n 4
    then cmd_query_msg_resp
    else if eqb n 5
    then cmd_query_msg_list_req
    else if eqb n 6
    then cmd_query_msg_list_resp
    else if eqb n 7
    then cmd_key_agree_req
    else if eqb n 8
    then cmd_key_agree_resp
    else if eqb n 9
    then cmd_key_check_req
    else if eqb n 10
    then cmd_key_check_resp
    else if eqb n 11
    then cmd_key_logout_req
    else if eqb n 12
    then cmd_key_logout_resp
    else cmd_unknown

pub command_of-command_number : (a : CommandType) → command_of (command_number a) ≡ a
unfolding command_of command_number
command_of-command_number cmd_unknown = refl
command_of-command_number cmd_send_msg_req = refl
command_of-command_number cmd_send_msg_resp = refl
command_of-command_number cmd_query_msg_req = refl
command_of-command_number cmd_query_msg_resp = refl
command_of-command_number cmd_query_msg_list_req = refl
command_of-command_number cmd_query_msg_list_resp = refl
command_of-command_number cmd_key_agree_req = refl
command_of-command_number cmd_key_agree_resp = refl
command_of-command_number cmd_key_check_req = refl
command_of-command_number cmd_key_check_resp = refl
command_of-command_number cmd_key_logout_req = refl
command_of-command_number cmd_key_logout_resp = refl

unfoldable pub code_number : ResultCode → ℕ
code_number result_unknown = 0
code_number result_success = 1
code_number result_failed = 2
code_number result_key_not_found = 3
code_number result_key_invalid = 4
code_number result_decrypt_failed = 5
code_number result_invalid_request = 6
code_number result_msg_not_found = 7
code_number result_key_agree_failed = 8
code_number result_key_check_failed = 9
code_number result_key_logout_failed = 10

unfoldable pub code_of : ℕ → ResultCode
code_of n =
    if eqb n 1
    then result_success
    else if eqb n 2
    then result_failed
    else if eqb n 3
    then result_key_not_found
    else if eqb n 4
    then result_key_invalid
    else if eqb n 5
    then result_decrypt_failed
    else if eqb n 6
    then result_invalid_request
    else if eqb n 7
    then result_msg_not_found
    else if eqb n 8
    then result_key_agree_failed
    else if eqb n 9
    then result_key_check_failed
    else if eqb n 10
    then result_key_logout_failed
    else result_unknown

pub code_of-code_number : (a : ResultCode) → code_of (code_number a) ≡ a
unfolding code_of code_number
code_of-code_number result_unknown = refl
code_of-code_number result_success = refl
code_of-code_number result_failed = refl
code_of-code_number result_key_not_found = refl
code_of-code_number result_key_invalid = refl
code_of-code_number result_decrypt_failed = refl
code_of-code_number result_invalid_request = refl
code_of-code_number result_msg_not_found = refl
code_of-code_number result_key_agree_failed = refl
code_of-code_number result_key_check_failed = refl
code_of-code_number result_key_logout_failed = refl

unfoldable pub msg_type_number : MessageType → ℕ
msg_type_number msg_type_unknown = 0
msg_type_number msg_type_text = 1

unfoldable pub msg_type_of : ℕ → MessageType
msg_type_of n = if eqb n 1 then msg_type_text else msg_type_unknown

pub msg_type_of-msg_type_number : (a : MessageType) → msg_type_of (msg_type_number a) ≡ a
unfolding msg_type_of msg_type_number
msg_type_of-msg_type_number msg_type_unknown = refl
msg_type_of-msg_type_number msg_type_text = refl

unfoldable pub delivery_number : DeliveryStatus → ℕ
delivery_number delivery_unknown = 0
delivery_number delivery_accepted = 1
delivery_number delivery_rejected = 2

unfoldable pub delivery_of : ℕ → DeliveryStatus
delivery_of n =
    if eqb n 1 then delivery_accepted else if eqb n 2 then delivery_rejected else delivery_unknown

pub delivery_of-delivery_number : (a : DeliveryStatus) → delivery_of (delivery_number a) ≡ a
unfolding delivery_of delivery_number
delivery_of-delivery_number delivery_unknown = refl
delivery_of-delivery_number delivery_accepted = refl
delivery_of-delivery_number delivery_rejected = refl
