-- ===== src/Serving/Order.antt =====
-- ThreadPool.cpp: the queue is first in, first out, and no task is lost when the pool ends.
use encrypted_transmission_d.Prelude.{
  ℕ, zero, suc, true, false, List, [], ◌∷◌, ◌++◌, ℤ, ◌≡◌, refl, sym, ap, ◌∙◌, inl, inr, Bool-cases,
}
use mathlib.Core.List.{append_assoc, append-nil}
use encrypted_transmission_d.Serving.Pool.{
  Worker, waiting, ended, handling, handled, Pool, contains, mark_fd_processing, enqueue,
  on_readable, among, Step, readable, take_task, leave, unmark, stop, end, Reach, here, next,
  waiting_workers, new_pool,
}

abbrev pub HasEnded : List Worker → Type 0
HasEnded [] = ⊥
HasEnded (ended ∷ ws) = Unit
HasEnded (w ∷ ws) = HasEnded ws

pub record IsOrdered (s : Pool) : Type 0 where
  pub fifo : s.taken ++ s.tasks ≡ s.pushed
  pub drained : HasEnded s.workers → (s.stopped ≡ true) × (s.tasks ≡ [])

ended_first : (w : Worker) (after : List Worker) → HasEnded after → HasEnded (w ∷ after)
ended_first ended after h = tt
ended_first waiting after h = h
ended_first (handling fd) after h = h
ended_first (handled fd) after h = h

-- Another worker's change is no end, unless it ends.
was_ended :
    (before : List Worker) (w w' : Worker) (after : List Worker)
    → (HasEnded (w' ∷ []) → ⊥)
    → HasEnded (among before w' after)
    → HasEnded (among before w after)
was_ended [] w waiting after alive h = ended_first w after h
was_ended [] w ended after alive h = absurd (alive tt)
was_ended [] w (handling x) after alive h = ended_first w after h
was_ended [] w (handled x) after alive h = ended_first w after h
was_ended (ended ∷ before) w w' after alive h = tt
was_ended (waiting ∷ before) w w' after alive h = was_ended before w w' after alive h
was_ended (handling fd ∷ before) w w' after alive h = was_ended before w w' after alive h
was_ended (handled fd ∷ before) w w' after alive h = was_ended before w w' after alive h

none_ended : (n : ℕ) → HasEnded (waiting_workers n) → ⊥
unfolding waiting_workers
none_ended zero h = h
none_ended (suc n) h = none_ended n h

new_pool-IsOrdered : (n : ℕ) → IsOrdered (new_pool n)
unfolding new_pool
new_pool-IsOrdered n = record { fifo = refl; drained = λ h. absurd (none_ended n h) }

on_readable-IsOrdered :
    (fd : ℤ) (s : Pool) → s.stopped ≡ false → IsOrdered s → IsOrdered (on_readable fd s)
unfolding on_readable mark_fd_processing enqueue
on_readable-IsOrdered fd s running i = elim (Bool-cases (contains fd s.processing)) [
  | inl busy ↦ rw busy i
  | inr free ↦ rw free (record {
    fifo = sym (append_assoc s.taken s.tasks (fd ∷ [])) ∙ ap (λ x. x ++ (fd ∷ [])) i.fifo;
    drained = λ h. let (st, ts) = i.drained h in absurd (cc);
  })
]

Step-IsOrdered : {s t : Pool} → Step s t → IsOrdered s → IsOrdered t
Step-IsOrdered {s} (readable fd running) i = on_readable-IsOrdered fd s running i
Step-IsOrdered {s} (take_task before after fd rest ws ts) i = record {
  fifo = append_assoc s.taken (fd ∷ []) rest ∙ ap (λ x. s.taken ++ x) (sym ts) ∙ i.fifo;
  drained = λ h.
      let (st, e) = i.drained (rw ws (was_ended before waiting (handling fd) after (λ x. x) h)) in
      absurd (cc);
}
Step-IsOrdered {s} (leave before after fd ws) i = record {
  fifo = i.fifo;
  drained = λ h. i.drained (rw ws (was_ended before (handling fd) (handled fd) after (λ x. x) h));
}
Step-IsOrdered {s} (unmark before after fd ws) i = record {
  fifo = i.fifo;
  drained = λ h. i.drained (rw ws (was_ended before (handled fd) waiting after (λ x. x) h));
}
Step-IsOrdered stop i = record { fifo = i.fifo; drained = λ h. (refl, (i.drained h).1) }
Step-IsOrdered {s} (end before after ws st ts) i = record { fifo = i.fifo; drained = λ h. (st, ts) }

Reach-IsOrdered : {s t : Pool} → IsOrdered s → Reach s t → IsOrdered t
Reach-IsOrdered i here = i
Reach-IsOrdered i (next r st) = Step-IsOrdered st (Reach-IsOrdered i r)

-- In every state that the server's pool reaches, the tasks taken so far and those in the queue are the
-- tasks pushed, in their order; and once a worker has ended, the pool has been stopped and every task
-- that was pushed has been taken.
pub first_in_first_out :
    (n : ℕ) (s : Pool)
    → Reach (new_pool n) s
    → (s.taken ++ s.tasks ≡ s.pushed)
      × (HasEnded s.workers → (s.stopped ≡ true) × (s.taken ≡ s.pushed))
first_in_first_out n s r =
    let i = Reach-IsOrdered (new_pool-IsOrdered n) r in
    (
      i.fifo,
      λ h.
          let (st, ts) = i.drained h in
          (st, sym (append-nil s.taken) ∙ ap (λ x. s.taken ++ x) (sym ts) ∙ i.fifo),
    )
