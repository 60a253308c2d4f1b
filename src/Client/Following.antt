-- ===== src/Client/Following.antt =====
-- ClientOP.cpp: the local key follows what the server answers to a request on keys.
use encrypted_transmission_d.Prelude.{
  some, sym, ℕ, suc, ◌%◌, ◌^◌, Bool, true, false, not, List, pos, ◌≡◌, ap, ◌∙◌, inl, inr,
  Bool-cases, if◌then◌else◌,
}
use encrypted_transmission_d.Cache.{Node, shm_read, shm_update_status}
use encrypted_transmission_d.Packet.{Header, CommandType}
use encrypted_transmission_d.Codec.{Protobuf, ResponseBody, key_op_resp, decode_response}
use encrypted_transmission_d.Outside.{Outside}
use encrypted_transmission_d.Transport.{Network}
use encrypted_transmission_d.Client.Base.{
  ClientInfo, Process, pure, then_run, Exchanged, not_connected, received, cache_update_status,
  request_id,
}
use encrypted_transmission_d.Client.Keys.{is_success, disable_key}
use encrypted_transmission_d.Client.Rules.{Ends, Keeps, exchange_at}

-- A reply to a key operation that reports success, or anything but success.
abbrev pub approves : ResponseBody → Bool
approves (key_op_resp code message key secret) = is_success code
approves _ = false

abbrev pub refuses : ResponseBody → Bool
refuses (key_op_resp code message key secret) = not (is_success code)
refuses _ = false

module _ {E H : Type 0} (o : Outside E H) where
  -- The state after the cache has been read, and the node that was read.
  abbrev pub read_state : Process H → Process H
  read_state w = record w { host = (o.attach w.host).1 }

module _ {E H : Type 0} (o : Outside E H) (info : ClientInfo) where
  -- The header that a request starting in the state has.
  abbrev pub header_at : CommandType → Process H → Header
  header_at command w = record {
    message_id = request_id o info.client_id (o.micros w.host).0 (suc w.sequence % 2 ^ 64);
    command = command;
    sender_id = info.client_id;
    receiver_id = info.server_id;
    timestamp = pos (o.time (o.micros w.host).1).0;
  }

  -- The state in which a request on keys starts its exchange: the cache has been read and the header
  -- made.
  abbrev pub begun_at : Process H → Process H
  begun_at w =
      let v = read_state o w in
      record v { host = (o.time (o.micros v.host).1).1; sequence = suc v.sequence % 2 ^ 64 }

  abbrev pub node_at : Process H → Node
  node_at w = shm_read (o.attach w.host).0 info.client_id info.server_id w.slots

module _ {E H : Type 0} (o : Outside E H) (p : Protobuf (List ℕ)) (net : Network H)
    (signals : H → ℕ) (info : ClientInfo) (verdict : ResponseBody → Bool) (asks : Bool)
    (request : List ℕ) where
  -- What the exchange of the request comes to, where the operation asks the server.
  abbrev pub Came : Bool → Process H → Exchanged → Process H → Type 0
  Came true w ex after = exchange_at net signals info request (begun_at o info w) ≡ some (ex, after)
  Came false w ex after = ex ≡ not_connected

  -- The slots, with the key of the pair disabled where the verdict on the reply says so.
  abbrev pub followed : Exchanged → Process H → List Node → List Node
  followed (received bytes) after slots =
      if verdict (decode_response p bytes).body
      then (shm_update_status (o.attach after.host).0 info.client_id info.server_id (pos 0) slots).1
      else slots
  followed _ after slots = slots

  -- The cache is left as it was, or the key of the pair is disabled in it: which, the verdict on what
  -- came of the exchange decides.
  pub record Follows (w w' : Process H) : Type 0 where
    pub exchanged : Exchanged
    pub after : Process H
    pub came : Came asks w exchanged after
    pub last : w'.last_server_message_id ≡ w.last_server_message_id
    pub cache : w'.slots ≡ followed exchanged after w.slots

  pub Follows-Keeps : (u v w : Process H) → Keeps v w → Follows u v → Follows u w
  Follows-Keeps u v w k f = record {
    exchanged = f.exchanged;
    after = f.after;
    came = f.came;
    last = k.last ∙ f.last;
    cache = k.slots ∙ f.cache;
  }

  -- What the two operations do with the reply, as its verdict says.
  pub decided-Follows :
      {T : Type 0} (u w : Process H) (bytes : List ℕ)
      → Came asks u (received bytes) w
      → Keeps u w
      → Ends T
          (elim (verdict (decode_response p bytes).body) [
            | true ↦ disable_key o p info w
            | false ↦ pure tt w
          ])
          (λ a w'. Follows u w')
  unfolding cache_update_status then_run
  decided-Follows u w bytes came k = elim (Bool-cases (verdict (decode_response p bytes).body)) [
    | inl yes_disable ↦ rw yes_disable (record {
      at = record {
        exchanged = received bytes;
        after = w;
        came = came;
        last = k.last;
        cache = rw yes_disable (
            ap
              (λ slots.
                (shm_update_status (o.attach w.host).0 info.client_id info.server_id (pos 0)
                  slots).1)
              k.slots);
      };
    })
    | inr keep ↦ rw keep (record {
      at = record {
        exchanged = received bytes;
        after = w;
        came = came;
        last = k.last;
        cache = rw keep k.slots;
      };
    })
  ]

  -- Without a reply the cache stays as it is.
  pub unanswered :
      {T : Type 0} (u w : Process H) (ex : Exchanged)
      → Came asks u ex w
      → followed ex w u.slots ≡ u.slots
      → Keeps u w
      → Ends T (pure tt w) (λ (a : Unit {0}) w'. Follows u w')
  unanswered u w ex came silent k = record {
    at = record {
      exchanged = ex;
      after = w;
      came = came;
      last = k.last;
      cache = k.slots ∙ sym silent;
    };
  }
