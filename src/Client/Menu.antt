-- ===== src/Client/Menu.antt =====
-- ClientOP.cpp: the entries of the menu that send and ask for messages. What the user types is an
-- argument.
use encrypted_transmission_d.Prelude.{
  ℕ, List, String, Bool, false, not, ℤ, some, is_positive, exceeds, is_empty, if◌then◌else◌,
}
use encrypted_transmission_d.Codec.{Protobuf}
use encrypted_transmission_d.Outside.{Outside}
use encrypted_transmission_d.Transport.{Network}
use encrypted_transmission_d.Client.Base.{ClientInfo, Client, pure, ◌>>=◌}
use encrypted_transmission_d.Client.Messages.{
  SendMessageResult, send_text_message, query_message_by_id, query_recent_messages_by_sender,
}

module _ {E H : Type 0} (o : Outside E H) (p : Protobuf (List ℕ)) (net : Network H)
    (signals : H → ℕ) (info : ClientInfo) where
  unfoldable pub remember : SendMessageResult → Client H (Unit {0})
  remember result w =
      if not result.success
      then some (tt, w)
      else some (tt, record w { last_server_message_id = result.server_message_id })

  unfoldable pub send_encrypted_message : String → String → Client H (Unit {0})
  send_encrypted_message receiver plaintext =
      if is_empty plaintext
      then pure tt
      else send_text_message o p net signals info receiver plaintext >>= remember

  -- An empty line stands for the last message, if there is one. The answer is only printed.
  unfoldable pub query_message : String → Client H Bool
  query_message typed w =
      let id = (if is_empty typed then w.last_server_message_id else typed) in
      if is_empty id then some (false, w) else query_message_by_id o p net signals info id w

  unfoldable pub query_recent_messages : String → ℤ → Client H Bool
  query_recent_messages typed limit =
      let sender = (if is_empty typed then info.client_id else typed) in
      if not (is_positive limit)
      then pure false
      else if exceeds limit 100
      then pure false
      else query_recent_messages_by_sender o p net signals info sender limit
