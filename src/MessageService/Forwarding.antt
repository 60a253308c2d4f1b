-- ===== src/MessageService/Forwarding.antt =====
-- MessageService.cpp, `handleSendMessage`: a message is forwarded whole or not at all.
use encrypted_transmission_d.Prelude.{
  pos, ◌∙◌, ℕ, String, true, false, not, ◌||◌, List, ℤ, ◌≡◌, refl, inl, inr, arith, ◌<>◌,
  Option-cases, if◌then◌else◌,
}
use encrypted_transmission_d.Cache.{Node, shm_read}
use encrypted_transmission_d.Database.{KeyRow}
use encrypted_transmission_d.Database.Effect.{Collation}
use encrypted_transmission_d.Packet.{
  Header, EncryptedMessage, RequestPacket, SendMessageResponse, result_failed, result_key_not_found,
  result_key_invalid, cmd_send_msg_resp,
}
use encrypted_transmission_d.Outside.{Outside, World}
use encrypted_transmission_d.Outside.Laws.{View, IsLawful, IsSound, Among}
use encrypted_transmission_d.Outside.Rules.{Post, Post-if, tables_of}
use encrypted_transmission_d.Outside.Quiet.{Quiet, Quiet-trans}
use encrypted_transmission_d.KeyStore.Check.{IsLive}
use encrypted_transmission_d.KeyStore.Lifecycle.{Evolves, Evolves-trans}
use encrypted_transmission_d.MessageService.Keys.{
  header_of, message_of, validate_request, ActiveKeyResult, is_cached, cache_read, get_active_key,
  time_now, build_response_header, generate_server_message_id, generate_scoped_id,
}
use encrypted_transmission_d.MessageService.Cipher.{
  DecryptMessageResult, EncryptMessageResult, decrypt_message, encrypt_message,
}
use encrypted_transmission_d.MessageService.Handler.{
  is_unnamed, refuse, store_message, reencrypt, with_receiver_key, find_receiver, with_sender_key,
  send_valid, validate_and_send, handle_send_message,
}
use encrypted_transmission_d.MessageService.Calls.{
  cache_read-IsQuiet, get_active_key-IsQuiet, encrypt_message-IsQuiet, time_now-IsQuiet,
  build_response_header-IsQuiet,
}
use encrypted_transmission_d.MessageService.ActiveKey.{IsUsable, get_active_key-IsUsable}
use encrypted_transmission_d.MessageService.Reencryption.{decrypt_message-encrypt_message}
use encrypted_transmission_d.MessageService.Readable.{readable, decrypt_message-IsReadable}
use encrypted_transmission_d.MessageService.Sending.{
  IsPending, Answered, Answered-after, refuse-Answered, store_message-Answered,
}

module _ {E H : Type 0} (o : Outside E H) (c : Collation) (v : View E) (server_id : String)
    (start : World E H) where
  -- At some time since `start` the database held an active row of the key for the client, not due.
  abbrev pub WasLive : String → ℤ → Type 0
  WasLive client key =
      (now : ℕ) × (keys : List KeyRow) × (row : KeyRow) × Evolves (tables_of v start).keys keys
      × Among row keys
      × IsLive c now client server_id key row

  -- The slot of the client in the cache, when the request comes.
  abbrev pub slot_at : String → Node
  slot_at client = shm_read true client server_id start.slots

  -- The key is the one that the cache holds for the client, under the number and marked usable, and it
  -- was live.
  pub record IsKeyOf (client : String) (id : ℤ) (key : String) : Type 0 where
    pub cached : is_cached id (slot_at client) ≡ true
    pub usable : (slot_at client).status ≡ pos 1
    pub seckey : key ≡ (slot_at client).seckey
    pub live : WasLive client id

  -- The stored ciphertext is the sender's text under the key of the receiver, and both keys are those of
  -- the cache.
  pub record Forwards (header : Header) (msg : EncryptedMessage) (rk : ℤ)
      (enc : EncryptMessageResult) : Type 0 where
    pub plaintext : String
    pub sender_key : String
    pub receiver_key : String
    pub received :
        decrypt_message o sender_key msg.ciphertext msg.nonce msg.tag msg.algorithm
        ≡ readable plaintext
    pub readdressed :
        decrypt_message o receiver_key enc.ciphertext enc.nonce enc.tag enc.algorithm
        ≡ readable plaintext
    pub from_sender : IsKeyOf header.sender_id msg.key_id sender_key
    pub for_receiver : IsKeyOf header.receiver_id rk receiver_key

module _ {E H : Type 0} (o : Outside E H) (c : Collation) (v : View E) (l : IsLawful o c v)
    (sound : IsSound o) (server_id : String) (start : World E H) (header : Header)
    (msg : EncryptedMessage) where
  IsUsable-IsKeyOf :
      (client : String) (id : ℤ) (w w' : World E H) (key : ActiveKeyResult)
      → Evolves (tables_of v start).keys (tables_of v w).keys
      → w.slots ≡ start.slots
      → IsUsable o c v l client server_id id (shm_read true client server_id w.slots) w key w'
      → IsKeyOf o c v server_id start client id key.base64_key
        × IsKeyOf o c v server_id start client key.key_id key.base64_key
        × (w'.slots ≡ start.slots)
  IsUsable-IsKeyOf client id w w' key since slots usable =
      let (found, named, text, cached, status, same, live) = usable in
      let (row, before, after, h) = live in
      let is_key : IsKeyOf o c v server_id start client id key.base64_key = record {
        cached = rw (← slots) cached;
        usable = rw (← slots) status;
        seckey = rw (← slots) text;
        live = (v.now w.engine, (tables_of v w).keys, row, since, before, h);
      } in
      (is_key, rw named is_key, same ∙ slots)

  abbrev Reply : World E H → SendMessageResponse → World E H → Type 0
  Reply = Answered o c v l server_id header msg (Forwards o c v server_id start header msg)

  cache_read-slots :
      (client : String) (w : World E H) → (cache_read o client server_id w).1.slots ≡ w.slots
  unfolding cache_read
  cache_read-slots client w = refl

  module _ (resp : SendMessageResponse) (pending : IsPending resp) (plaintext sender_key : String)
      (received : decrypt_message o sender_key msg.ciphertext msg.nonce msg.tag msg.algorithm
        ≡ readable plaintext)
      (from_sender : IsKeyOf o c v server_id start header.sender_id msg.key_id sender_key) where
    reencrypted-Reply :
        (key : ActiveKeyResult) (w : World E H) (enc : EncryptMessageResult) (w' : World E H)
        → v.in_transaction w'.engine ≡ false
        → IsKeyOf o c v server_id start header.receiver_id key.key_id key.base64_key
        → (enc.success ≡ true
            → decrypt_message o key.base64_key enc.ciphertext enc.nonce enc.tag enc.algorithm
              ≡ readable plaintext)
        → Post
            (if enc.success
              then store_message o server_id resp header msg key.key_id enc
              else refuse o server_id resp result_failed
                  ("encrypt message for receiver failed: " <> enc.error_msg)
                  header.sender_id
                  "MSG_DELIVER"
                  header.receiver_id
                  ("encrypt for receiver failed: " <> enc.error_msg))
            w'
            (Reply w')
    reencrypted-Reply key w enc w' idle live readdressed =
        Post-if enc.success _ _ w' (Reply w')
          (λ ok.
            store_message-Answered o c v l server_id header msg _ resp key.key_id enc w' idle
              pending
              (record {
                plaintext = plaintext;
                sender_key = sender_key;
                receiver_key = key.base64_key;
                received = received;
                readdressed = readdressed ok;
                from_sender = from_sender;
                for_receiver = live;
              }))
          (λ bad.
            refuse-Answered o c v l server_id header msg _ resp _ _ _ _ _ _ w' idle pending (cc))

    reencrypt-Reply :
        (key : ActiveKeyResult) (w : World E H)
        → v.in_transaction w.engine ≡ false
        → IsKeyOf o c v server_id start header.receiver_id key.key_id key.base64_key
        → Post (reencrypt o server_id resp header msg plaintext key) w (Reply w)
    unfolding reencrypt
    reencrypt-Reply key w idle live =
        let q = (encrypt_message-IsQuiet o c v l key.base64_key plaintext).at w idle in
        Answered-after o c v l server_id header msg _ q (
          reencrypted-Reply key w (encrypt_message o key.base64_key plaintext w).0 _ q.idle live
            (decrypt_message-encrypt_message o sound key.base64_key plaintext w))

    with_receiver_key-Reply :
        (key : ActiveKeyResult) (w : World E H)
        → v.in_transaction w.engine ≡ false
        → (key.valid ≡ true
            → IsKeyOf o c v server_id start header.receiver_id key.key_id key.base64_key)
        → Post (with_receiver_key o server_id resp header msg plaintext key) w (Reply w)
    unfolding with_receiver_key
    with_receiver_key-Reply key w idle live =
        Post-if (not key.found || not key.valid) _ _ w (Reply w)
          (λ bad.
            refuse-Answered o c v l server_id header msg _ resp
              (if key.found then result_key_invalid else result_key_not_found) _ _ _ _ _ w idle
              pending (ground arith))
          (λ ok. reencrypt-Reply key w idle (live (ground arith)))

    find_receiver-Reply :
        (w : World E H)
        → v.in_transaction w.engine ≡ false
        → Evolves (tables_of v start).keys (tables_of v w).keys
        → w.slots ≡ start.slots
        → Post (find_receiver o server_id resp header msg plaintext) w (Reply w)
    unfolding find_receiver
    find_receiver-Reply w idle since slots = Answered-after o c v l server_id header msg _ q (
        Post-if (is_unnamed node) _ _ read (Reply read)
          (λ bad.
            refuse-Answered o c v l server_id header msg _ resp _ _ _ _ _ _ read q.idle pending
              (cc))
          (λ ok. Answered-after o c v l server_id header msg _ asked (
            with_receiver_key-Reply key _ asked.idle (λ valid.
              (IsUsable-IsKeyOf header.receiver_id node.seckey_id read
                (get_active_key o header.receiver_id server_id node.seckey_id read).1 key
                (Evolves-trans _ _ _ since q.keys) (cache_read-slots header.receiver_id w ∙ slots)
                (get_active_key-IsUsable o c v l header.receiver_id server_id node.seckey_id read
                  q.idle valid)).1))))
      where
        node : Node
        node = (cache_read o header.receiver_id server_id w).0

        read : World E H
        read = (cache_read o header.receiver_id server_id w).1

        q : Quiet v w read
        q = (cache_read-IsQuiet o c v l header.receiver_id server_id).at w idle

        key : ActiveKeyResult
        key = (get_active_key o header.receiver_id server_id node.seckey_id read).0

        asked : Quiet v read (get_active_key o header.receiver_id server_id node.seckey_id read).1
        asked =
            (get_active_key-IsQuiet o c v l header.receiver_id server_id node.seckey_id).at read
              q.idle

  with_sender_key-Reply :
      (resp : SendMessageResponse) (key : ActiveKeyResult) (w : World E H)
      → IsPending resp
      → v.in_transaction w.engine ≡ false
      → Evolves (tables_of v start).keys (tables_of v w).keys
      → (key.valid ≡ true
          → IsKeyOf o c v server_id start header.sender_id msg.key_id key.base64_key
            × (w.slots ≡ start.slots))
      → Post (with_sender_key o server_id resp header msg key) w (Reply w)
  unfolding with_sender_key
  with_sender_key-Reply resp key w pending idle since live =
      Post-if (not key.found) _ _ w (Reply w)
        (λ missing.
          refuse-Answered o c v l server_id header msg _ resp _ _ _ _ _ _ w idle pending (cc))
        (λ found.
          Post-if (not key.valid) _ _ w (Reply w)
            (λ bad.
              refuse-Answered o c v l server_id header msg _ resp _ _ _ _ _ _ w idle pending (cc))
            (λ good.
              Post-if dec.success _ _ w (Reply w)
                (λ ok.
                  find_receiver-Reply resp pending dec.plaintext key.base64_key
                    ((decrypt_message-IsReadable o key.base64_key msg.ciphertext msg.nonce msg.tag
                        msg.algorithm).reads
                      ok)
                    (live (ground arith)).0 w idle since (live (ground arith)).1)
                (λ bad.
                  refuse-Answered o c v l server_id header msg _ resp _ _ _ _ _ _ w idle pending
                    (cc))))
    where
      dec : DecryptMessageResult
      dec = decrypt_message o key.base64_key msg.ciphertext msg.nonce msg.tag msg.algorithm

  send_valid-Reply :
      (resp : SendMessageResponse) (w : World E H)
      → IsPending resp
      → v.in_transaction w.engine ≡ false
      → Evolves (tables_of v start).keys (tables_of v w).keys
      → w.slots ≡ start.slots
      → Post (send_valid o server_id resp header msg) w (Reply w)
  unfolding send_valid
  send_valid-Reply resp w pending idle since slots =
      Answered-after o c v l server_id header msg _ q (
        with_sender_key-Reply resp key _ pending q.idle (Evolves-trans _ _ _ since q.keys) (λ valid.
          let (is_key, named, same) =
            IsUsable-IsKeyOf header.sender_id msg.key_id w
              (get_active_key o header.sender_id server_id msg.key_id w).1 key since slots
              (get_active_key-IsUsable o c v l header.sender_id server_id msg.key_id w idle
                valid) in
          (is_key, same)))
    where
      key : ActiveKeyResult
      key = (get_active_key o header.sender_id server_id msg.key_id w).0

      q : Quiet v w (get_active_key o header.sender_id server_id msg.key_id w).1
      q = (get_active_key-IsQuiet o c v l header.sender_id server_id msg.key_id).at w idle

module _ {E H : Type 0} (o : Outside E H) (c : Collation) (v : View E) (l : IsLawful o c v)
    (sound : IsSound o) (server_id : String) (start : World E H) where
  abbrev pub Outcome : RequestPacket → World E H → SendMessageResponse → World E H → Type 0
  Outcome packet =
      Answered o c v l server_id (header_of packet) (message_of packet)
        (Forwards o c v server_id start (header_of packet) (message_of packet))

  timed-slots :
      (packet : RequestPacket) (w : World E H)
      → (time_now o (build_response_header o server_id packet cmd_send_msg_resp w).1).1.slots
        ≡ w.slots
  unfolding build_response_header time_now generate_server_message_id generate_scoped_id
  timed-slots packet w = elim (Option-cases packet.header) [
    | inl e ↦ rw e refl
    | inr (h, e) ↦ rw e refl
  ]

  validate_and_send-Outcome :
      (resp : SendMessageResponse) (packet : RequestPacket) (w : World E H)
      → IsPending resp
      → v.in_transaction w.engine ≡ false
      → Evolves (tables_of v start).keys (tables_of v w).keys
      → w.slots ≡ start.slots
      → Post (validate_and_send o server_id resp packet) w (Outcome packet w)
  unfolding validate_and_send
  validate_and_send-Outcome resp packet w pending idle since slots =
      elim (Option-cases (validate_request packet)) [
        | inl e ↦
            rw (e, validate_and_send)
              (send_valid-Reply o c v l sound server_id start (header_of packet) (message_of packet)
                resp w pending idle since slots)
        | inr e ↦
            rw (e.1, validate_and_send)
              (refuse-Answered o c v l server_id (header_of packet) (message_of packet) _ resp _ _ _
                _ _ _ w idle pending (cc))
      ]

  -- With no transaction open, and with base64 and AES-GCM that undo themselves, `handleSendMessage`
  -- does one of two things. It refuses: the code is not success, the delivery is rejected, no ID is
  -- given, no message is added or changed, and the keys keep to their lifecycle. Or it accepts:
  -- message_log gains exactly one record, under the ID of the answer, with the sender's ciphertext as
  -- it came and a ciphertext for the receiver, such that one text is what the first decrypts to under
  -- the key that the cache held for the sender when the request came, and the second under the key that
  -- it held for the receiver; both are marked usable there under the numbers of the record; and since
  -- then the database held an active row, not yet due, of the sender's key number for the sender and
  -- of the receiver's key number for the receiver.
  pub handle_send_message-Forwards :
      (packet : RequestPacket)
      → v.in_transaction start.engine ≡ false
      → Post (handle_send_message o server_id packet) start (Outcome packet start)
  unfolding handle_send_message
  handle_send_message-Forwards packet idle =
      Answered-after o c v l server_id (header_of packet) (message_of packet) _ q (
        validate_and_send-Outcome _ packet _ (record { delivery = refl; id = refl }) q.idle q.keys
          (timed-slots packet start))
    where
      q1 : Quiet v start (build_response_header o server_id packet cmd_send_msg_resp start).1
      q1 = (build_response_header-IsQuiet o c v l server_id packet cmd_send_msg_resp).at start idle

      q :
          Quiet v start
            (time_now o (build_response_header o server_id packet cmd_send_msg_resp start).1).1
      q = Quiet-trans v q1 ((time_now-IsQuiet o c v l).at _ q1.idle)
