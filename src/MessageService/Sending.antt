-- ===== src/MessageService/Sending.antt =====
-- MessageService.cpp, `handleSendMessage`: the answers, and what they say of the tables.
use encrypted_transmission_d.Prelude.{
  String, Bool, true, false, not, [], ◌∷◌, ◌++◌, ℤ, ◌≡◌, ◌≢◌, refl, ap, ◌∙◌, inl, inr, ◌⊎◌, ◌<>◌,
  Bool-cases, if◌then◌else◌,
}
use encrypted_transmission_d.Database.{MessageLogRecord, Reply, insert_message}
use encrypted_transmission_d.Database.Effect.{Collation, effect, answer}
use encrypted_transmission_d.Packet.{
  Header, EncryptedMessage, SendMessageResponse, ResultCode, result_success, result_failed,
  delivery_accepted, delivery_rejected,
}
use encrypted_transmission_d.Outside.{Outside, World}
use encrypted_transmission_d.Outside.Laws.{View, IsLawful}
use encrypted_transmission_d.Outside.Rules.{Post, tables_of, run_idle, RanIdle}
use encrypted_transmission_d.Outside.Quiet.{Quiet, Quiet-trans, IsQuiet-on_host}
use encrypted_transmission_d.KeyStore.{is_failed}
use encrypted_transmission_d.KeyStore.Lifecycle.{Evolves, Evolves-refl, Evolves-trans}
use encrypted_transmission_d.MessageStore.{repository_insert, insert_message_log, is_absent}
use encrypted_transmission_d.MessageService.Keys.{generate_server_message_id, generate_scoped_id}
use encrypted_transmission_d.MessageService.Cipher.{EncryptMessageResult}
use encrypted_transmission_d.MessageService.Handler.{
  message_record, refuse, report_sent, store_message,
}
use encrypted_transmission_d.MessageService.Calls.{
  refuse-IsQuiet, report_sent-IsQuiet, generate_scoped_id-IsQuiet,
}

-- The response before the outcome is known.
pub record IsPending (resp : SendMessageResponse) : Type 0 where
  pub delivery : resp.delivery_status ≡ delivery_rejected
  pub id : resp.server_message_id ≡ ""

module _ {E H : Type 0} (v : View E) where
  -- The request was refused: nothing is stored.
  pub record Refused (w : World E H) (resp : SendMessageResponse) (w' : World E H) : Type 0 where
    pub code : resp.code ≢ result_success
    pub delivery : resp.delivery_status ≡ delivery_rejected
    pub id : resp.server_message_id ≡ ""
    pub quiet : Quiet v w w'

  -- The message was stored: one record, that of the answer's ID, with what `Facts` says of the
  -- receiver's key and of the ciphertext for it.
  pub record Stored (header : Header) (msg : EncryptedMessage)
      (Facts : ℤ → EncryptMessageResult → Type 0) (w : World E H) (resp : SendMessageResponse)
      (w' : World E H) : Type 0 where
    pub receiver_key : ℤ
    pub enc : EncryptMessageResult
    pub time : String
    pub code : resp.code ≡ result_success
    pub delivery : resp.delivery_status ≡ delivery_accepted
    pub messages :
        (tables_of v w').messages
        ≡ (tables_of v w).messages
          ++ message_record resp.server_message_id header msg receiver_key enc time ∷ []
    pub keys : Evolves (tables_of v w).keys (tables_of v w').keys
    pub db : w'.db ≡ w.db
    pub idle : v.in_transaction w'.engine ≡ false
    pub facts : Facts receiver_key enc

module _ {E H : Type 0} (o : Outside E H) (c : Collation) (v : View E) (l : IsLawful o c v)
    (server_id : String) (header : Header) (msg : EncryptedMessage)
    (Facts : ℤ → EncryptMessageResult → Type 0) where
  abbrev pub Answered : World E H → SendMessageResponse → World E H → Type 0
  Answered w resp w' = Refused v w resp w' ⊎ Stored v header msg Facts w resp w'

  -- A quiet call before the answer.
  pub Answered-after :
      {w w' w'' : World E H} {resp : SendMessageResponse}
      → Quiet v w w'
      → Answered w' resp w''
      → Answered w resp w''
  Answered-after q (inl r) =
      inl (record {
        code = r.code;
        delivery = r.delivery;
        id = r.id;
        quiet = Quiet-trans v q r.quiet;
      })
  Answered-after q (inr s) = inr (record {
    receiver_key = s.receiver_key;
    enc = s.enc;
    time = s.time;
    code = s.code;
    delivery = s.delivery;
    messages = rw (← q.messages) s.messages;
    keys = Evolves-trans _ _ _ q.keys s.keys;
    db = s.db ∙ q.db;
    idle = s.idle;
    facts = s.facts;
  })

  pub refuse-Answered :
      (resp : SendMessageResponse) (code : ResultCode)
      (message sender action target detail : String) (w : World E H)
      → v.in_transaction w.engine ≡ false
      → IsPending resp
      → code ≢ result_success
      → Post (refuse o server_id resp code message sender action target detail) w (Answered w)
  unfolding refuse
  refuse-Answered resp code message sender action target detail w idle p n = inl (record {
    code = n;
    delivery = p.delivery;
    id = p.id;
    quiet =
        (refuse-IsQuiet o c v l server_id resp code message sender action target detail).at w idle;
  })

  -- The insertion into message_log: it is done, or it changes nothing.
  abbrev Inserted : MessageLogRecord → World E H → Bool → World E H → Type 0
  Inserted message w b w' =
      ((b ≡ false) × Quiet v w w')
      ⊎ ((b ≡ true)
          × ((tables_of v w').messages ≡ (tables_of v w).messages ++ message ∷ [])
          × Evolves (tables_of v w).keys (tables_of v w').keys
          × (w'.db ≡ w.db)
          × (v.in_transaction w'.engine ≡ false))

  ran-Inserted :
      (message : MessageLogRecord) (w w' : World E H) (r : Reply)
      → RanIdle o c v (insert_message message) w r w'
      → Inserted message w (not (is_failed r)) w'
  unfolding effect answer
  ran-Inserted message w w' r (same, idle, cases) = elim cases [
    | inl (f, t) ↦ inl (
      rw f refl,
      record {
        db = db;
        idle = idle;
        messages = ap (λ d. d.messages) t;
        keys = rw t (Evolves-refl _);
      },
    )
    | inr (t, inl a) ↦ inr (rw a refl, ap (λ d. d.messages) t, rw t (Evolves-refl _), db, idle)
    | inr (t, inr n) ↦ inr (rw n.0 refl, ap (λ d. d.messages) t, rw t (Evolves-refl _), db, idle)
  ]
    where
      db : w'.db ≡ w.db
      db = ap (λ (x : World E H). x.db) same

  repository_insert-Inserted :
      (message : MessageLogRecord) (w : World E H)
      → v.in_transaction w.engine ≡ false
      → Post (repository_insert o message) w (Inserted message w)
  unfolding repository_insert insert_message_log
  repository_insert-Inserted message w idle = elim (Bool-cases (is_absent w.db)) [
    | inl e ↦
        rw (e, repository_insert)
          (inl (refl, record { db = refl; idle = idle; messages = refl; keys = Evolves-refl _ }))
    | inr e ↦
        rw (e, repository_insert)
          (ran-Inserted message w _ _ (run_idle o c v l (insert_message message) w refl idle))
  ]

  report_sent-Answered :
      (resp : SendMessageResponse) (id time : String) (rk : ℤ) (enc : EncryptMessageResult)
      (w w' : World E H)
      → v.in_transaction w'.engine ≡ false
      → ((tables_of v w').messages
          ≡ (tables_of v w).messages ++ message_record id header msg rk enc time ∷ [])
      → Evolves (tables_of v w).keys (tables_of v w').keys
      → w'.db ≡ w.db
      → Facts rk enc
      → Post (report_sent o server_id resp header id) w' (Answered w)
  unfolding report_sent
  report_sent-Answered resp id time rk enc w w' idle stored keys db facts =
      let q = (report_sent-IsQuiet o c v l server_id resp header id).at w' idle in
      inr (record {
        receiver_key = rk;
        enc = enc;
        time = time;
        code = refl;
        delivery = refl;
        messages = q.messages ∙ stored;
        keys = Evolves-trans _ _ _ keys q.keys;
        db = q.db ∙ db;
        idle = q.idle;
        facts = facts;
      })

  -- Steps 9 to 11, with the answer of the insertion.
  finish-Answered :
      (resp : SendMessageResponse) (id time : String) (rk : ℤ) (enc : EncryptMessageResult)
      (w w' : World E H) (b : Bool)
      → IsPending resp
      → Facts rk enc
      → Inserted (message_record id header msg rk enc time) w b w'
      → Post
          (if b
            then report_sent o server_id resp header id
            else refuse o server_id resp result_failed "insert message_log failed" header.sender_id
                "MSG_STORE" id "insert message_log failed")
          w'
          (Answered w)
  finish-Answered resp id time rk enc w w' true p facts (inl (e, q)) = absurd (cc)
  finish-Answered resp id time rk enc w w' true p facts (inr (e, stored, keys, db, idle)) =
      report_sent-Answered resp id time rk enc w w' idle stored keys db facts
  finish-Answered resp id time rk enc w w' false p facts (inl (e, q)) = Answered-after q (
      refuse-Answered resp result_failed "insert message_log failed" header.sender_id "MSG_STORE" id
        "insert message_log failed" w' q.idle p (cc))
  finish-Answered resp id time rk enc w w' false p facts (inr t) = absurd (let e = t.0 in cc)

  pub store_message-Answered :
      (resp : SendMessageResponse) (rk : ℤ) (enc : EncryptMessageResult) (w : World E H)
      → v.in_transaction w.engine ≡ false
      → IsPending resp
      → Facts rk enc
      → Post (store_message o server_id resp header msg rk enc) w (Answered w)
  unfolding store_message generate_server_message_id
  store_message-Answered resp rk enc w idle p facts = Answered-after q (
      finish-Answered resp id time rk enc timed _ _ p facts
        (repository_insert-Inserted (message_record id header msg rk enc time) timed q.idle))
    where
      id : String
      id = (generate_scoped_id o (server_id <> "_msg") w).0

      named : World E H
      named = (generate_scoped_id o (server_id <> "_msg") w).1

      time : String
      time = (o.local_time named.host).0

      timed : World E H
      timed = record named { host = (o.local_time named.host).1 }

      q : Quiet v w timed
      q = Quiet-trans v ((generate_scoped_id-IsQuiet o c v l (server_id <> "_msg")).at w idle) (
          (IsQuiet-on_host o.local_time).at named
            ((generate_scoped_id-IsQuiet o c v l (server_id <> "_msg")).at w idle).idle)
