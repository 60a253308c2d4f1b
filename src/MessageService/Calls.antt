-- ===== src/MessageService/Calls.antt =====
-- MessageService.cpp: which calls leave the messages alone.
use encrypted_transmission_d.Prelude.{
  String, Bool, true, false, ℤ, refl, ap, inl, inr, Option-cases, Bool-cases,
}
use encrypted_transmission_d.Outside.{Outside, ◌>>=◌, on_host}
use encrypted_transmission_d.Outside.Laws.{View, IsLawful}
use encrypted_transmission_d.Outside.Quiet.{IsQuiet, KeysOnly-Quiet, quiet_rules}
use encrypted_transmission_d.Database.Effect.{Collation}
use encrypted_transmission_d.KeyStore.{check_sec_key}
use encrypted_transmission_d.KeyStore.Check.{check_sec_key-HasLive}
use encrypted_transmission_d.Cache.{Node}
use encrypted_transmission_d.Database.{AuditLogRecord}
use encrypted_transmission_d.Database.Effect.{effect}
use encrypted_transmission_d.Packet.{
  Header, RequestPacket, CommandType, ResultCode, SendMessageResponse,
}
use encrypted_transmission_d.Outside.Rules.{run_idle}
use encrypted_transmission_d.Outside.Quiet.{IsQuiet-pure}
use encrypted_transmission_d.KeyStore.Lifecycle.{Evolves-refl}
use encrypted_transmission_d.MessageStore.{
  audit_statement, insert_audit_log, log_record, log_action_at, log_action, is_absent,
}
use encrypted_transmission_d.MessageService.Cipher.{encrypt_message}
use encrypted_transmission_d.MessageService.Handler.{audit, refuse, report_sent}
use encrypted_transmission_d.MessageService.Keys.{
  build_response_header, header_from, header_without, generate_server_message_id,
  generate_audit_log_id, cache_read, cache_update_status, generate_scoped_id, keep_or_disable,
  confirm_cached, confirm_missing, active_key_of, get_active_key, time_now,
}

module _ {E H : Type 0} (o : Outside E H) (c : Collation) (v : View E) (l : IsLawful o c v) where
  pub cache_read-IsQuiet : (client server : String) → IsQuiet v (cache_read o client server)
  unfolding cache_read
  cache_read-IsQuiet client server = search quiet_rules

  pub check_sec_key-IsQuiet :
      (client server : String) (key : ℤ) → IsQuiet v (check_sec_key o client server key)
  check_sec_key-IsQuiet client server key = record {
    at = λ w i. KeysOnly-Quiet v (check_sec_key-HasLive o c v l w i client server key).0;
  }

  pub cache_update_status-IsQuiet :
      (client server : String) (status : ℤ) → IsQuiet v (cache_update_status o client server status)
  unfolding cache_update_status
  cache_update_status-IsQuiet client server status = search quiet_rules

  pub generate_scoped_id-IsQuiet : (prefix : String) → IsQuiet v (generate_scoped_id o prefix)
  unfolding generate_scoped_id
  generate_scoped_id-IsQuiet prefix = record {
    at = λ w i. record { db = refl; idle = i; messages = refl; keys = Evolves-refl _ };
  }

  pub time_now-IsQuiet : IsQuiet v (time_now o)
  unfolding time_now
  time_now-IsQuiet = search quiet_rules

  pub build_response_header-IsQuiet :
      (id : String) (packet : RequestPacket) (command : CommandType)
      → IsQuiet v (build_response_header o id packet command)
  unfolding build_response_header generate_server_message_id
  build_response_header-IsQuiet id packet command = record {
    at = λ w i. elim (Option-cases packet.header) [
      | inl e ↦ rw (e, build_response_header) (without.at w i)
      | inr (h, e) ↦ rw (e, build_response_header) ((from h).at w i)
    ];
  }
    where
      from : (h : Header) → IsQuiet v (header_from o h.message_id id h.sender_id command)
      from h = search (quiet_rules, time_now-IsQuiet)

      without : IsQuiet v (header_without o id command)
      without = search (quiet_rules, time_now-IsQuiet, generate_scoped_id-IsQuiet)

  keep_or_disable-IsQuiet :
      (sender receiver : String) (key : ℤ) (node : Node) (confirmed : Bool)
      → IsQuiet v (keep_or_disable o sender receiver key node confirmed)
  unfolding keep_or_disable
  keep_or_disable-IsQuiet sender receiver key node true = search quiet_rules
  keep_or_disable-IsQuiet sender receiver key node false =
      search (quiet_rules, cache_update_status-IsQuiet)

  confirm_cached-IsQuiet :
      (sender receiver : String) (key : ℤ) (node : Node)
      → IsQuiet v (confirm_cached o sender receiver key node)
  unfolding confirm_cached
  confirm_cached-IsQuiet sender receiver key node =
      search (quiet_rules, check_sec_key-IsQuiet, keep_or_disable-IsQuiet)

  confirm_missing-IsQuiet :
      (sender receiver : String) (key : ℤ) → IsQuiet v (confirm_missing o sender receiver key)
  unfolding confirm_missing
  confirm_missing-IsQuiet sender receiver key = search (quiet_rules, check_sec_key-IsQuiet)

  active_key_of-IsQuiet :
      (sender receiver : String) (key : ℤ) (node : Node)
      → IsQuiet v (active_key_of o sender receiver key node)
  unfolding active_key_of
  active_key_of-IsQuiet sender receiver key node =
      search (quiet_rules, confirm_cached-IsQuiet, confirm_missing-IsQuiet)

  pub get_active_key-IsQuiet :
      (sender receiver : String) (key : ℤ) → IsQuiet v (get_active_key o sender receiver key)
  unfolding get_active_key
  get_active_key-IsQuiet sender receiver key =
      search (quiet_rules, cache_read-IsQuiet, active_key_of-IsQuiet)

  insert_audit_log-IsQuiet : (entry : AuditLogRecord) → IsQuiet v (insert_audit_log o entry)
  unfolding insert_audit_log effect
  insert_audit_log-IsQuiet entry = record {
    at = λ w i.
        let (same, idle, cases) = run_idle o c v l (audit_statement entry) w refl i in
        elim cases [
          | inl (f, t) ↦ record {
            db = refl;
            idle = idle;
            messages = ap (λ d. d.messages) t;
            keys = rw t (Evolves-refl _);
          }
          | inr (t, a) ↦ record {
            db = refl;
            idle = idle;
            messages = ap (λ d. d.messages) t;
            keys = rw t (Evolves-refl _);
          }
        ];
  }

  log_record-IsQuiet : (entry : AuditLogRecord) → IsQuiet v (log_record o entry)
  unfolding log_record
  log_record-IsQuiet entry = record {
    at = λ w i. elim (Bool-cases (is_absent w.db)) [
      | inl e ↦ rw (e, log_record) ((IsQuiet-pure {H = H} {v = v} false).at w i)
      | inr e ↦ rw (e, log_record) ((insert_audit_log-IsQuiet entry).at w i)
    ];
  }

  pub log_action_at-IsQuiet :
      (id node action target : String) (result : ℤ) (detail time : String)
      → IsQuiet v (log_action_at o id node action target result detail time)
  unfolding log_action_at
  log_action_at-IsQuiet id node action target result detail time = log_record-IsQuiet _

  pub log_action-IsQuiet :
      (id node action target : String) (result : ℤ) (detail : String)
      → IsQuiet v (log_action o id node action target result detail)
  unfolding log_action
  log_action-IsQuiet id node action target result detail = record {
    at = λ w i. elim (Bool-cases (is_absent w.db)) [
      | inl e ↦ rw (e, log_action) ((IsQuiet-pure {H = H} {v = v} false).at w i)
      | inr e ↦ rw (e, log_action) (logged.at w i)
    ];
  }
    where
      logged : IsQuiet v (
          on_host o.local_time >>= λ time. log_action_at o id node action target result detail time)
      logged = search (quiet_rules, log_action_at-IsQuiet)

  pub encrypt_message-IsQuiet :
      (key plaintext : String) → IsQuiet v (encrypt_message o key plaintext)
  unfolding encrypt_message
  encrypt_message-IsQuiet key plaintext = search quiet_rules

  module _ (id : String) where
    pub audit-IsQuiet :
        (sender action target : String) (result : ℤ) (detail : String)
        → IsQuiet v (audit o id sender action target result detail)
    unfolding audit generate_audit_log_id
    audit-IsQuiet sender action target result detail =
        search (quiet_rules, generate_scoped_id-IsQuiet, log_action_at-IsQuiet)

    pub refuse-IsQuiet :
        (resp : SendMessageResponse) (code : ResultCode)
        (message sender action target detail : String)
        → IsQuiet v (refuse o id resp code message sender action target detail)
    unfolding refuse
    refuse-IsQuiet resp code message sender action target detail =
        search (quiet_rules, audit-IsQuiet)

    pub report_sent-IsQuiet :
        (resp : SendMessageResponse) (header : Header) (msg_id : String)
        → IsQuiet v (report_sent o id resp header msg_id)
    unfolding report_sent
    report_sent-IsQuiet resp header msg_id = search (quiet_rules, audit-IsQuiet, time_now-IsQuiet)
