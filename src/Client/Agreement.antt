-- ===== src/Client/Agreement.antt =====
-- ClientOP.cpp, keyAgreement: the key that the server answers is what the cache holds.
use encrypted_transmission_d.Prelude.{
  ℕ, String, Bool, true, false, Option, none, some, List, ℤ, negsuc, c_str, is_empty, eq_refl, ◌≡◌,
  refl, ◌∙◌, ◌⊎◌, inl, inr, if◌then◌else◌,
}
use encrypted_transmission_d.Cache.{Node, zero_node, holds, is_zero, shm_read, shm_write}
use encrypted_transmission_d.Cache.Slots.{find_first}
use encrypted_transmission_d.Cache.Reads.{shm_read-shm_write, shm_write_refused}
use encrypted_transmission_d.Packet.{cmd_key_agree_req}
use encrypted_transmission_d.Codec.{
  Protobuf, key_agreement_info, ResponseBody, key_op_resp, encode_request, decode_response,
}
use encrypted_transmission_d.Outside.{Outside}
use encrypted_transmission_d.Client.Base.{
  ClientInfo, KeyFiles, Process, then_run, cache_read, cache_write,
}
use encrypted_transmission_d.Client.Keys.{is_success, lacks_ids, strncpy, client_node, store_agreed}
use encrypted_transmission_d.Client.Rules.{Ends}
use encrypted_transmission_d.Client.Following.{header_at}

-- The key's number and the sealed key in a reply to a key operation that reports success.
abbrev pub agreed_key : ResponseBody → Option (ℤ × String)
agreed_key (key_op_resp code message key secret) =
    if is_success code then some (key, secret) else none
agreed_key _ = none

module _ {E H : Type 0} (o : Outside E H) (p : Protobuf (List ℕ)) (files : KeyFiles H)
    (info : ClientInfo) where
  -- The state once the key pair has been made and the public key read, and that key.
  abbrev pub keyed : Process H → Process H
  keyed w = record w { host = (files.read_public_key (files.generate_key_pair w.host)).1 }

  abbrev pub public_key_at : Process H → Option String
  public_key_at w = (files.read_public_key (files.generate_key_pair w.host)).0

  abbrev pub agreement_request : String → Process H → List ℕ
  agreement_request public_key w = encode_request p (
      key_agreement_info (header_at o info cmd_key_agree_req w) public_key
        (files.rsa_sign (o.sha256 public_key) (o.time (o.micros w.host).1).1).0)

  -- The cache is as it was, or as the write of the node leaves it that has the number and the
  -- decrypted key of a reply that reports success; and the answer is true only where a read of the pair finds a node.
  pub record IsStored (w : Process H) (b : Bool) (w' : Process H) : Type 0 where
    pub last : w'.last_server_message_id ≡ w.last_server_message_id
    pub cache :
        (w'.slots ≡ w.slots)
        ⊎ ((bytes : List ℕ) × (key : ℤ) × (secret : String) × (host : H) × (attached : Bool)
            × (agreed_key (decode_response p bytes).body ≡ some (key, secret))
            × (w'.slots
                ≡ (shm_write attached
                    (client_node info key
                      (o.base64_encode (files.rsa_private_decrypt secret host).0))
                    w.slots).1))
    pub read_back :
        b ≡ true
        → (attached : Bool) × (lacks_ids (shm_read attached info.client_id info.server_id w'.slots)
            ≡ false)

-- The copies of the IDs into the node's arrays are whole, and neither is empty.
pub record HasIds (info : ClientInfo) : Type 0 where
  pub client_fits : strncpy 11 (c_str info.client_id) ≡ c_str info.client_id
  pub server_fits : strncpy 11 (c_str info.server_id) ≡ c_str info.server_id
  pub client_named : is_empty (c_str info.client_id) ≡ false
  pub server_named : is_empty (c_str info.server_id) ≡ false

module _ (info : ClientInfo) (ids : HasIds info) (key : ℤ) (secret : String) where
  own_pair :
      holds (c_str info.client_id) (c_str info.server_id) (client_node info key secret) ≡ true
  unfolding client_node
  own_pair =
      rw
        (
          ids.client_fits,
          ids.server_fits,
          eq_refl (c_str info.client_id),
          eq_refl (c_str info.server_id),
        )
        refl

  node_named : lacks_ids (client_node info key secret) ≡ false
  unfolding client_node
  node_named = rw (ids.client_fits, ids.server_fits, ids.client_named, ids.server_named) refl

  -- Where the node is written it is what a read of the pair finds; where not, a read finds none.
  written_read :
      (slots : List Node)
      → ((shm_read true info.client_id info.server_id
            (shm_write true (client_node info key secret) slots).1
          ≡ client_node info key secret))
        ⊎ ((shm_write true (client_node info key secret) slots ≡ (negsuc 0, slots))
            × (shm_read true info.client_id info.server_id slots ≡ zero_node)
            × (find_first is_zero slots ≡ none))
  unfolding client_node shm_read
  written_read slots = elim (shm_write_refused (client_node info key secret) slots).1 [
    | inl done ↦ inl (
        shm_read-shm_write (client_node info key secret) info.client_id info.server_id slots
          (rw ids.client_named refl) done
        ∙ rw own_pair refl)
    | inr refused ↦
        let (unheld, full) = (shm_write_refused (client_node info key secret) slots).0.0 refused in
        let unread = rw (ids.client_fits, ids.server_fits) at unheld in
        inr (refused, rw unread refl, full)
  ]

module _ {E H : Type 0} (o : Outside E H) (p : Protobuf (List ℕ)) (files : KeyFiles H)
    (info : ClientInfo) (ids : HasIds info) (attaches : (h : H) → (o.attach h).0 ≡ true) where
  -- With IDs that fit the node's arrays and are not empty, and a segment that attaches, keyAgreement
  -- does one of two things with the key of a successful reply: it answers true, and a read of the pair
  -- finds the active node with the number and the decrypted key; or it answers false, the cache is as
  -- it was, no slot of it holds the pair and none is empty.
  pub store_agreed_answers :
      (key : ℤ) (secret : String) (w : Process H)
      → let node =
          client_node info key (o.base64_encode (files.rsa_private_decrypt secret w.host).0) in
        Ends ⊥ (store_agreed o p files info key secret w) (λ b w'.
          ((b ≡ true) × (shm_read true info.client_id info.server_id w'.slots ≡ node))
          ⊎ ((b ≡ false)
              × (w'.slots ≡ w.slots)
              × (shm_read true info.client_id info.server_id w.slots ≡ zero_node)
              × (find_first is_zero w.slots ≡ none)))
  unfolding store_agreed cache_read cache_write then_run
  store_agreed_answers key secret w =
      let text = o.base64_encode (files.rsa_private_decrypt secret w.host).0 in
      rw (attaches _, attaches _)
        (elim (written_read info ids key text w.slots) [
          | inl found ↦
              rw found (record { at = inl (rw (node_named info ids key text) refl, found) })
          | inr (refused, unread, full) ↦
              rw (refused, unread) (record { at = inr (refl, refl, refl, full) })
        ])
