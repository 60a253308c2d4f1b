-- ===== src/KeyService/Checked.antt =====
-- ServerOP.cpp, `secKeyCheck`: what an answer stands for, and what it does to the cache.
use encrypted_transmission_d.Prelude.{
  List, subst, String, Bool, true, false, some, ℤ, pos, ◌≡◌, refl, ap, subst, ◌⊎◌, inl, inr, int_eq,
  int_eq_iff,
}
use encrypted_transmission_d.Cache.{Node, shm_update_status}
use encrypted_transmission_d.Database.Effect.{Collation}
use encrypted_transmission_d.Packet.{
  Header, RequestPacket, key_check_req, KeyOperationResponse, result_success, result_key_invalid,
}
use encrypted_transmission_d.Outside.{Outside, World}
use encrypted_transmission_d.Outside.Laws.{View, IsLawful}
use encrypted_transmission_d.Outside.Rules.{Post, Post-if, tables_of}
use encrypted_transmission_d.KeyStore.{check_sec_key}
use encrypted_transmission_d.KeyStore.Check.{HasLive, check_sec_key-HasLive}
use encrypted_transmission_d.MessageService.Keys.{time_now, cache_read, cache_update_status}
use encrypted_transmission_d.KeyService.{
  make_key_response, build_key_response_header, refuse_key, report_check, check_valid, check_parts,
  sec_key_check,
}

module _ {E H : Type 0} (o : Outside E H) (c : Collation) (v : View E) (l : IsLawful o c v)
    (server_id : String) (packet : RequestPacket) (header : Header) (key : ℤ) where
  -- The key is confirmed: it is live, and the cache is as it was. Or it is refused: the cache is as
  -- it was, or the node read from it is of the very key, and at most the status in its slot has changed, to 0.
  abbrev pub Decided : World E H → KeyOperationResponse → World E H → Type 0
  Decided w r w' =
      ((r.code ≡ result_success)
        × (w'.slots ≡ w.slots)
        × HasLive c (v.now w.engine) header.sender_id header.receiver_id key (tables_of v w).keys
            (tables_of v w').keys)
      ⊎ ((r.code ≡ result_key_invalid)
          × ((w'.slots ≡ w.slots)
              ⊎ (((cache_read o header.sender_id header.receiver_id w).0.seckey_id ≡ key)
                  × (w'.slots
                      ≡ (shm_update_status true header.sender_id header.receiver_id (pos 0)
                          w.slots).1))))

  abbrev Refused : Node → List Node → KeyOperationResponse → World E H → Type 0
  Refused node slots r w' =
      (r.code ≡ result_key_invalid)
      × ((w'.slots ≡ slots)
          ⊎ ((node.seckey_id ≡ key)
              × (w'.slots
                  ≡ (shm_update_status true header.sender_id header.receiver_id (pos 0) slots).1)))

  refuse_key-Refused :
      (node : Node) (w : World E H)
      → Post (refuse_key o server_id packet header key node) w (Refused node w.slots)
  unfolding refuse_key make_key_response build_key_response_header time_now cache_update_status
      shm_update_status
  refuse_key-Refused node w =
      Post-if (int_eq node.seckey_id key) _ _ w (Refused node w.slots)
        (λ hit. go (o.attach w.host).0 ((int_eq_iff node.seckey_id key).0 hit))
        (λ miss. (refl, inl refl))
    where
      go :
          (attached : Bool)
          → node.seckey_id ≡ key
          → (result_key_invalid ≡ result_key_invalid)
            × (((shm_update_status attached header.sender_id header.receiver_id (pos 0) w.slots).1
                  ≡ w.slots)
                ⊎ ((node.seckey_id ≡ key)
                    × ((shm_update_status attached header.sender_id header.receiver_id
                          (pos 0)
                          w.slots).1
                        ≡ (shm_update_status true header.sender_id header.receiver_id
                            (pos 0)
                            w.slots).1)))
      go true same = (refl, inr (same, refl))
      go false same = (refl, inl refl)

  report_check-Decided :
      (w w' : World E H) (b : Bool)
      → w'.slots ≡ w.slots
      → (b ≡ true
          → HasLive c
              (v.now w.engine)
              header.sender_id
              header.receiver_id
              key
              (tables_of v w).keys
              (tables_of v w').keys)
      → Post
          (report_check o server_id packet header key
            (cache_read o header.sender_id header.receiver_id w).0
            b)
          w'
          (Decided w)
  unfolding report_check make_key_response build_key_response_header time_now
  report_check-Decided w w' true same live = inl (refl, same, live refl)
  report_check-Decided w w' false same live =
      let node = (cache_read o header.sender_id header.receiver_id w).0 in
      inr (
        subst
          (λ slots.
            Refused node slots (refuse_key o server_id packet header key node w').0
              (refuse_key o server_id packet header key node w').1)
          same (refuse_key-Refused node w'))

  check_valid-Decided :
      (w : World E H)
      → v.in_transaction w.engine ≡ false
      → Post (check_valid o server_id packet header key) w (Decided w)
  unfolding check_valid cache_read
  check_valid-Decided w idle =
      let (quiet, live) =
        check_sec_key-HasLive o c v l (cache_read o header.sender_id header.receiver_id w).1 idle
          header.sender_id header.receiver_id key in
      report_check-Decided w _
        (check_sec_key o header.sender_id header.receiver_id key
          (cache_read o header.sender_id header.receiver_id w).1).0
        (ap (λ (x : World E H). x.slots) quiet.process) live

  -- With no transaction open, `secKeyCheck` on a request with a header and a check either answers
  -- success, leaves the cache as it was, and the database holds a row of the key that is active and
  -- not yet due; or it answers that the key is invalid, and the cache is as it was unless the node
  -- read from it has the number of the request: then at most the status in its slot changes, to 0.
  pub sec_key_check-Decided :
      (w : World E H)
      → v.in_transaction w.engine ≡ false
      → packet.header ≡ some header
      → packet.body ≡ key_check_req key
      → Post (sec_key_check o server_id packet) w (Decided w)
  unfolding sec_key_check check_parts
  sec_key_check-Decided w idle named asked =
      rw (named, asked, check_parts) (check_valid-Decided w idle)
