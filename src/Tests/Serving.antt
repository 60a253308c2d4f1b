-- ===== src/Tests/Serving.antt =====
-- Runs of the theorems on the server's connections: one request on the line, and a pool of two workers
-- with one descriptor.
use encrypted_transmission_d.Prelude.{
  ℕ, ◌+◌, ◌≤◌, true, false, none, some, [], ◌∷◌, ◌++◌, ℤ, pos, ◌≡◌, refl, sym, List, ap, ◌∙◌, arith,
}
use encrypted_transmission_d.Outside.{World, connected}
use encrypted_transmission_d.Transport.{frame_of, recv_msg}
use encrypted_transmission_d.Transport.Live.{recv_msg_live}
use encrypted_transmission_d.Transport.Bytes.{encode_length}
use encrypted_transmission_d.Codec.{encode_response, decode_request}
use encrypted_transmission_d.KeyService.{dispatch, unsupported}
use encrypted_transmission_d.MessageService.Keys.{time_now}
use encrypted_transmission_d.Serving.{process_request, encode_answer, handle_client_fd}
use encrypted_transmission_d.Serving.Handling.{
  Closes, AnswersWith, handle_client_fd-Closes, handle_client_fd-Answers,
}
use encrypted_transmission_d.Serving.Pool.{
  waiting, handled, Pool, mark_fd_processing, contains, enqueue, on_readable, readable, take_task,
  leave, Reach, here, next, new_pool,
}
use encrypted_transmission_d.Serving.Exclusion.{count, at_workers, one_worker, reused_fd_dropped}
use encrypted_transmission_d.Serving.Order.{HasEnded, first_in_first_out}
use encrypted_transmission_d.Tests.Engine.{Mysql}
use encrypted_transmission_d.Tests.Wire.{Line, line, line-IsStream, line-IsLive, line-IsOutlet}
use encrypted_transmission_d.Tests.Machine.{machine, bytes}

abbrev quiet : Line → ℕ
quiet n = 0

abbrev world : World Mysql Line
world = record {
  engine = record {
    db = record { key_sn = some (pos 9); keys = []; messages = []; audits = [] };
    saved = record { key_sn = none; keys = []; messages = []; audits = [] };
    is_open = false;
    clock = 1000;
  };
  host = record { clock = 1; input = 0 ∷ 0 ∷ 0 ∷ 1 ∷ 1 ∷ []; output = [] };
  slots = [];
  db = connected;
  sequence = 0;
  query_sequence = 0;
}

abbrev del_fd : ℤ → Line → Line
del_fd fd h = h

abbrev received : World Mysql Line
received = record world { host = (recv_msg line (pos 3) (pos 10) world.host).1 }

answered :
    (process_request machine bytes line quiet del_fd "server" (1 ∷ []) received).0 ≡ some (2 ∷ [])
unfolding process_request dispatch unsupported time_now encode_answer encode_response decode_request
answered = refl

request_framed : frame_of (1 ∷ []) ≡ some (0 ∷ 0 ∷ 0 ∷ 1 ∷ 1 ∷ [])
unfolding frame_of encode_length
request_framed = refl

reply_framed : frame_of (2 ∷ []) ≡ some (0 ∷ 0 ∷ 0 ∷ 1 ∷ 2 ∷ [])
unfolding frame_of encode_length
reply_framed = refl

handle_client_fd-Answers_example :
    AnswersWith machine bytes line quiet del_fd "server"
      (pos 3)
      (λ n. n.input)
      (λ n. n.output)
      (line-IsStream (pos 3))
      (line-IsLive (pos 3))
      (line-IsOutlet (pos 3))
      (0 ∷ 0 ∷ 0 ∷ 1 ∷ 2 ∷ [])
      (process_request machine bytes line quiet del_fd "server" (1 ∷ []) received).1
      (handle_client_fd machine bytes line quiet del_fd "server" (pos 3) world)
handle_client_fd-Answers_example =
    handle_client_fd-Answers machine bytes line quiet del_fd "server" (pos 3) (λ n. n.input)
      (λ n. n.output) (line-IsStream (pos 3)) (line-IsLive (pos 3)) (line-IsOutlet (pos 3)) (1 ∷ [])
      (0 ∷ 0 ∷ 0 ∷ 1 ∷ 1 ∷ []) [] (2 ∷ []) (0 ∷ 0 ∷ 0 ∷ 1 ∷ 2 ∷ []) world refl (omega arith)
      request_framed refl answered refl reply_framed

answers :
    (request : List ℕ)
    → (recv_msg line (pos 3) (pos 10) world.host).0 ≡ (pos 0, request)
    → (reply : List ℕ) × (reply_frame : List ℕ) × ((process_request machine bytes line quiet del_fd
          "server" request received).0
        ≡ some reply)
      × (frame_of reply ≡ some reply_frame)
answers request e =
    let sent : (1 ∷ []) ≡ request =
      ap (λ (r : ℤ × List ℕ). r.1)
        (sym
            (recv_msg_live line (pos 3) (λ n. n.input) (line-IsStream (pos 3)) (line-IsLive (pos 3))
              (1 ∷ []) (0 ∷ 0 ∷ 0 ∷ 1 ∷ 1 ∷ []) [] (pos 10) world.host (omega arith) request_framed
              refl refl).0
          ∙ e) in
    (2 ∷ [], 0 ∷ 0 ∷ 0 ∷ 1 ∷ 2 ∷ [], rw (sym sent) answered, reply_framed)

handle_client_fd-Closes_example :
    Closes machine bytes line quiet del_fd "server"
      (pos 3)
      (λ n. n.output)
      (line-IsOutlet (pos 3))
      (handle_client_fd machine bytes line quiet del_fd "server" (pos 3) world)
handle_client_fd-Closes_example =
    handle_client_fd-Closes machine bytes line quiet del_fd "server" (pos 3) (λ n. n.output)
      (line-IsOutlet (pos 3)) world answers

-- One worker has closed descriptor 5 and not yet unmarked it.
abbrev leaving : Pool
leaving = record {
  processing = pos 5 ∷ [];
  tasks = [];
  workers = handled (pos 5) ∷ waiting ∷ [];
  stopped = false;
  pushed = pos 5 ∷ [];
  taken = pos 5 ∷ [];
}

reached : Reach (new_pool 2) leaving
unfolding new_pool on_readable mark_fd_processing contains enqueue
reached =
    next
      (next (next here (readable (pos 5) refl)) (take_task [] (waiting ∷ []) (pos 5) [] refl refl))
      (leave [] (waiting ∷ []) (pos 5) refl)

one_worker_example :
    (count (pos 5) leaving.tasks + at_workers (pos 5) leaving.workers ≤ 1)
    × (count (pos 5) leaving.tasks + at_workers (pos 5) leaving.workers
        ≡ count (pos 5) leaving.processing)
one_worker_example = one_worker 2 leaving (pos 5) reached

reused_fd_dropped_example : on_readable (pos 5) leaving ≡ leaving
reused_fd_dropped_example = reused_fd_dropped 2 leaving (pos 5) [] (waiting ∷ []) reached refl

first_in_first_out_example :
    (leaving.taken ++ leaving.tasks ≡ leaving.pushed)
    × (HasEnded leaving.workers → (leaving.stopped ≡ true) × (leaving.taken ≡ leaving.pushed))
first_in_first_out_example = first_in_first_out 2 leaving reached
