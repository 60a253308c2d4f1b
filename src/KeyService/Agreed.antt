-- ===== src/KeyService/Agreed.antt =====
-- ServerOP.cpp, `seckeyAgree`: the key is in the database before the cache and the client have it.
use encrypted_transmission_d.Prelude.{
  pos, c_str, sym, ◌&&◌, ◌<>◌, Bool-cases, String, Bool, true, false, Option, none, some, ◌≡◌, refl,
  ap, ◌⊎◌, inl, inr,
}
use encrypted_transmission_d.Cache.{Node, shm_write}
use encrypted_transmission_d.Database.Effect.{Collation}
use encrypted_transmission_d.Packet.{
  Header, RequestPacket, key_agree_req, KeyOperationResponse, result_success,
  result_key_agree_failed,
}
use encrypted_transmission_d.Outside.{Outside, World}
use encrypted_transmission_d.Outside.Laws.{View, IsLawful}
use encrypted_transmission_d.Outside.Rules.{Post, tables_of}
use encrypted_transmission_d.KeyStore.{write_sec_key_with_trans}
use encrypted_transmission_d.KeyStore.Rotation.{
  Rotated, write_sec_key_with_trans-Rotated, write_sec_key_with_trans-IsLegal,
}
use encrypted_transmission_d.MessageService.Keys.{time_now, cache_write}
use encrypted_transmission_d.KeyService.{
  fits, agreed_node, make_key_response, build_key_response_header, publish_key, store_key,
  get_rand_key, agree_on_key, agree_valid, agree_parts, seckey_agree,
}

-- The node of an agreement on a key: the IDs of the request and the key, up to their first NUL.
pub record IsNodeOf (header : Header) (key : String) (node : Node) : Type 0 where
  pub status : node.status ≡ pos 1
  pub client : node.client_id ≡ c_str header.sender_id
  pub server : node.server_id ≡ c_str header.receiver_id
  pub seckey : node.seckey ≡ c_str key

-- An ID of the request fills its array of 12 bytes, or the key its array of 128, without room for the
-- NUL.
abbrev pub Overflows : Header → String → Type 0
Overflows header key =
    (fits 12 header.sender_id && fits 12 header.receiver_id && fits 128 key) ≡ false

agreed_node_lem :
    (header : Header) (key : String) (filled : Option Node)
    → agreed_node header.sender_id header.receiver_id key ≡ filled
    → ((filled ≡ none) × Overflows header key)
      ⊎ ((node : Node) × (filled ≡ some node) × IsNodeOf header key node)
unfolding agreed_node
agreed_node_lem header key filled e =
    elim (Bool-cases (fits 12 header.sender_id && fits 12 header.receiver_id && fits 128 key)) [
      | inl room ↦ inr (
        _,
        sym (rw room at e),
        record { status = refl; client = refl; server = refl; seckey = refl },
      )
      | inr full ↦ inl (sym (rw full at e), full)
    ]

module _ {E H : Type 0} (o : Outside E H) (header : Header) (public_key sign : String) where
  -- The file of the client's public key.
  abbrev pub key_file : String
  key_file = header.sender_id <> "_pub.pem"

  -- What the verification of the signature answers, the 16 bytes that are then drawn, and their
  -- encryption for the client.
  abbrev pub verified_at : World E H → Bool × H
  verified_at w =
      o.rsa_verify key_file (o.sha256 public_key) sign (o.write_file key_file public_key w.host)

  abbrev pub key_at : World E H → String × H
  key_at w = o.rand_bytes 16 (verified_at w).1

  abbrev pub secret_at : World E H → String × H
  secret_at w = o.rsa_public_encrypt key_file (key_at w).0 (key_at w).1

  -- The process when the transaction starts.
  abbrev pub drawn_at : World E H → World E H
  drawn_at w = record w { host = (secret_at w).1 }

module _ {E H : Type 0} (o : Outside E H) (c : Collation) (v : View E) (header : Header)
    (public_key sign : String) where
  -- A failure without a key, and without a change of the cache.
  pub record Refused (w : World E H) (resp : KeyOperationResponse) (w' : World E H) : Type 0 where
    pub code : resp.code ≡ result_key_agree_failed
    pub no_secret : resp.key_data ≡ ""
    pub cache : w'.slots ≡ w.slots

  -- The signature fits; the node of the IDs and of the key drawn was rotated in the database, and the
  -- answer has its number and the key encrypted; the cache holds the node if it was written.
  pub record Published (w : World E H) (resp : KeyOperationResponse) (w' : World E H) : Type 0 where
    pub node : Node
    pub node' : Node
    pub code : resp.code ≡ result_success
    pub verified : (verified_at o header public_key sign w).0 ≡ true
    pub asked : IsNodeOf header (o.base64_encode (key_at o header public_key sign w).0) node
    pub rotated : Rotated c v (drawn_at o header public_key sign w) node node' (tables_of v w')
    pub number : resp.key_id ≡ node'.seckey_id
    pub secret : resp.key_data ≡ (secret_at o header public_key sign w).0
    pub cache : (w'.slots ≡ w.slots) ⊎ (w'.slots ≡ (shm_write true node' w.slots).1)

  abbrev pub Agreed : World E H → Option KeyOperationResponse → World E H → Type 0
  Agreed w none w' =
      ((verified_at o header public_key sign w).0 ≡ true)
      × Overflows header (o.base64_encode (key_at o header public_key sign w).0)
  Agreed w (some resp) w' = Refused w resp w' ⊎ Published w resp w'

module _ {E H : Type 0} (o : Outside E H) (c : Collation) (v : View E) (l : IsLawful o c v)
    (server_id : String) (packet : RequestPacket) (header : Header) (public_key sign : String) where
  module _ (w : World E H) (idle : v.in_transaction w.engine ≡ false)
      (verified : (verified_at o header public_key sign w).0 ≡ true) where
    publish_key-Agreed :
        (node : Node) (w' : World E H) (stored : Bool × Node)
        → IsNodeOf header (o.base64_encode (key_at o header public_key sign w).0) node
        → w'.slots ≡ w.slots
        → (stored.0 ≡ true
            → Rotated c v (drawn_at o header public_key sign w) node stored.1 (tables_of v w'))
        → Post
            (publish_key o server_id packet (secret_at o header public_key sign w).0 stored)
            w'
            (Agreed o c v header public_key sign w)
    unfolding publish_key make_key_response build_key_response_header time_now cache_write shm_write
    publish_key-Agreed node w' (false, node') asked same rotated =
        inl (record { code = refl; no_secret = refl; cache = same })
    publish_key-Agreed node w' (true, node') asked same rotated = inr (record {
      node = node;
      node' = node';
      code = refl;
      verified = verified;
      asked = asked;
      rotated = rotated refl;
      number = refl;
      secret = refl;
      cache = go (o.attach w'.host).0;
    })
      where
        go :
            (attached : Bool)
            → ((shm_write attached node' w'.slots).1 ≡ w.slots)
              ⊎ ((shm_write attached node' w'.slots).1 ≡ (shm_write true node' w.slots).1)
        go true = inr (ap (λ slots. (shm_write true node' slots).1) same)
        go false = inl same

    store_key-Agreed :
        Post
          (store_key o server_id packet (secret_at o header public_key sign w).0 (
            agreed_node header.sender_id header.receiver_id
              (o.base64_encode (key_at o header public_key sign w).0)))
          (drawn_at o header public_key sign w)
          (Agreed o c v header public_key sign w)
    unfolding store_key
    store_key-Agreed =
        elim (agreed_node_lem header (o.base64_encode (key_at o header public_key sign w).0) _
          refl) [
            | inl (e, full) ↦ rw e (verified, full)
            | inr (node, e, asked) ↦ rw e (
                publish_key-Agreed node _
                  (write_sec_key_with_trans o node (drawn_at o header public_key sign w)).0 asked
                  (ap (λ (x : World E H). x.slots)
                    (write_sec_key_with_trans-IsLegal o c v l node
                      (drawn_at o header public_key sign w) idle).1)
                  (λ done.
                    (write_sec_key_with_trans-Rotated o c v l node
                      (drawn_at o header public_key sign w) idle done).0))
          ]

  agree_valid-Agreed :
      (w : World E H)
      → v.in_transaction w.engine ≡ false
      → Post
          (agree_valid o server_id packet header public_key sign)
          w
          (Agreed o c v header public_key sign w)
  unfolding agree_valid agree_on_key get_rand_key make_key_response build_key_response_header
      time_now
  agree_valid-Agreed w idle = elim (Bool-cases (verified_at o header public_key sign w).0) [
    | inl fits_key ↦ rw fits_key (store_key-Agreed w idle fits_key)
    | inr forged ↦ rw forged (inl (record { code = refl; no_secret = refl; cache = refl }))
  ]

  -- With no transaction open, `seckeyAgree` on a request with a header and an agreement does one of
  -- three things. An ID of the request, or the key that it draws, does not fit its array. Or it answers
  -- a failure, without a key, and leaves the cache as it was. Or it answers success: the signature was
  -- verified with the public key of the request; the node that was rotated in the database has the IDs
  -- of the request and the key that was drawn; the answer has the number of that node and the key
  -- encrypted under the public key; and the cache is as it was or as the write of the rotated node
  -- leaves it.
  pub seckey_agree-Agreed :
      (w : World E H)
      → v.in_transaction w.engine ≡ false
      → packet.header ≡ some header
      → packet.body ≡ key_agree_req public_key sign
      → Post (seckey_agree o server_id packet) w (Agreed o c v header public_key sign w)
  unfolding seckey_agree agree_parts
  seckey_agree-Agreed w idle named asked =
      rw (named, asked, agree_parts) (agree_valid-Agreed w idle)
