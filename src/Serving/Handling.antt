-- ===== src/Serving/Handling.antt =====
-- ServerOP.cpp, handleClientFd: a request that arrives whole is answered on its connection, and the
-- connection is closed.
use encrypted_transmission_d.Prelude.{
  ℕ, suc, ◌+◌, ◌^◌, ◌<◌, false, Option, some, String, List, ◌++◌, ℤ, pos, int_eq, int_eq_iff,
  is_negative, length, ◌≡◌, refl, ap, inl, inr, arith, Bool-cases, Option-cases,
}
use encrypted_transmission_d.Codec.{Protobuf}
use encrypted_transmission_d.Outside.{Outside, World}
use encrypted_transmission_d.Transport.{Network, frame_of, recv_msg, send_msg, disconnect}
use encrypted_transmission_d.Transport.Reading.{IsStream}
use encrypted_transmission_d.Transport.Writing.{IsOutlet, Wrote, send_msg-Wrote, length-frame}
use encrypted_transmission_d.Transport.Live.{IsLive, recv_msg_live}
use encrypted_transmission_d.Serving.{
  no_bytes, process_request, close_client, finish_response, respond, serve, handle_client_fd,
}

module _ {E H : Type 0} (o : Outside E H) (p : Protobuf (List ℕ)) (net : Network H)
    (signals : H → ℕ) (del_fd : ℤ → H → H) (server_id : String) where
  -- The connection has been closed, by delFd and then disconnect, as the last thing.
  abbrev pub IsClosed : ℤ → World E H → Type 0
  IsClosed fd w' = (h : H) × (w'.host ≡ (disconnect net fd (del_fd fd h)).1)

  abbrev handle : ℤ → World E H → Option (Unit {0}) × World E H
  handle fd w = handle_client_fd o p net signals del_fd server_id fd w

  module _ (fd : ℤ) (sent : H → List ℕ) (outlet : IsOutlet net fd sent signals) where
    -- It has returned, and the connection has been closed.
    abbrev pub Closes : Option (Unit {0}) × World E H → Type 0
    Closes r = (r.0 ≡ some tt) × IsClosed fd r.1

    close_client-Closes :
        (w : World E H) → Closes (close_client o p net signals del_fd server_id fd w)
    unfolding close_client
    close_client-Closes w = (refl, (w.host, refl))

    respond-Closes :
        (reply reply_frame : List ℕ) (w : World E H)
        → frame_of reply ≡ some reply_frame
        → Closes (respond o p net signals del_fd server_id fd (some reply) w)
    unfolding respond finish_response
    respond-Closes reply reply_frame w framed = elim (Bool-cases (no_bytes reply)) [
      | inl empty ↦ rw empty (close_client-Closes w)
      | inr full ↦
          let fuel = suc (4 + length reply + signals w.host) in
          let wrote =
            send_msg-Wrote net fd sent signals outlet fuel reply reply_frame (pos 10) w.host framed
              (omega (arith, length-frame reply reply_frame framed)) in
          elim (Option-cases (send_msg net fd fuel reply (pos 10) w.host)) [
            | inl e ↦ absurd (rw e at wrote)
            | inr ((code, h), e) ↦ rw (full, e) (close_client-Closes (record w { host = h }))
          ]
    ]

    -- Whatever recvMsg answers, handleClientFd returns with the connection closed, where
    -- processV2Request answers the bytes that recvMsg gave it, if any, with a reply that fits a frame.
    pub handle_client_fd-Closes :
        (w : World E H)
        → ((request : List ℕ)
            → (recv_msg net fd (pos 10) w.host).0 ≡ (pos 0, request)
            → (reply : List ℕ) × (reply_frame : List ℕ) × ((process_request o p net signals del_fd
                  server_id request
                  (record w { host = (recv_msg net fd (pos 10) w.host).1 })).0
                ≡ some reply)
              × (frame_of reply ≡ some reply_frame))
        → Closes (handle fd w)
    unfolding handle_client_fd serve
    handle_client_fd-Closes w answers =
        elim (Bool-cases (int_eq (recv_msg net fd (pos 10) w.host).0.0 (pos 0))) [
          | inl ok ↦
              let (reply, reply_frame, answered, fits) =
                answers (recv_msg net fd (pos 10) w.host).0.1 (
                  ap (λ (c : ℤ). (c, (recv_msg net fd (pos 10) w.host).0.1))
                    ((int_eq_iff _ (pos 0)).0 ok)) in
              rw (ok, answered) (respond-Closes reply reply_frame _ fits)
          | inr bad ↦ rw bad (close_client-Closes _)
        ]

  module _ (fd : ℤ) (pending sent : H → List ℕ) (stream : IsStream net fd pending)
      (live : IsLive net fd pending) (outlet : IsOutlet net fd sent signals) where
    -- The frame of a reply is sent whole with code 0, or its beginning with another code, from the
    -- state of the machine on; and then the connection is closed.
    abbrev pub AnswersWith : List ℕ → World E H → Option (Unit {0}) × World E H → Type 0
    AnswersWith reply_frame w' r =
        (r.0 ≡ some tt)
        × ((code : ℤ) × (h : H) × Wrote net fd sent signals outlet reply_frame w'.host
              (some (code, h))
            × (r.1.host ≡ (disconnect net fd (del_fd fd h)).1))

    respond-AnswersWith :
        (reply reply_frame : List ℕ) (w' : World E H)
        → no_bytes reply ≡ false
        → frame_of reply ≡ some reply_frame
        → AnswersWith reply_frame w' (respond o p net signals del_fd server_id fd (some reply) w')
    unfolding respond finish_response close_client
    respond-AnswersWith reply reply_frame w' full framed =
        let fuel = suc (4 + length reply + signals w'.host) in
        let wrote =
          send_msg-Wrote net fd sent signals outlet fuel reply reply_frame (pos 10) w'.host framed
            (omega (arith, length-frame reply reply_frame framed)) in
        elim (Option-cases (send_msg net fd fuel reply (pos 10) w'.host)) [
          | inl e ↦ absurd (rw e at wrote)
          | inr ((code, h), e) ↦ rw (full, e) (refl, (code, h, rw e at wrote, refl))
        ]

    -- On a connection that stays up, a request that arrives whole in a frame is handed to
    -- processV2Request as it was sent. Where that answers with a reply that is not empty and fits a
    -- frame, the frame of that reply is sent whole with code 0, or its beginning with another code;
    -- and then the connection is closed.
    pub handle_client_fd-Answers :
        (request frame rest reply reply_frame : List ℕ) (w : World E H)
        → is_negative fd ≡ false
        → length request < 2 ^ 32
        → frame_of request ≡ some frame
        → pending w.host ≡ frame ++ rest
        → (process_request o p net signals del_fd server_id request
            (record w { host = (recv_msg net fd (pos 10) w.host).1 })).0
          ≡ some reply
        → no_bytes reply ≡ false
        → frame_of reply ≡ some reply_frame
        → AnswersWith reply_frame
            (process_request o p net signals del_fd server_id request
              (record w { host = (recv_msg net fd (pos 10) w.host).1 })).1
            (handle fd w)
    unfolding handle_client_fd serve
    handle_client_fd-Answers request frame rest reply reply_frame w open_fd small framed arrived
          answered full fits =
        let (read, left) =
          recv_msg_live net fd pending stream live request frame rest (pos 10) w.host small framed
            arrived (rw open_fd refl) in
        rw read (rw answered (respond-AnswersWith reply reply_frame _ full fits))
