-- ===== src/Serving/Exclusion.antt =====
-- ServerOP.cpp and ThreadPool.cpp: a descriptor is under way once at most.
use encrypted_transmission_d.Prelude.{
  ℕ, zero, suc, ◌+◌, ◌≤◌, true, false, List, [], ◌∷◌, ◌++◌, ℤ, int_eq, int_eq_iff, int_eq_refl, ◌≡◌,
  refl, subst, inl, inr, arith, Bool-cases, if◌then◌else◌,
}
use encrypted_transmission_d.Serving.Pool.{
  Worker, waiting, ended, handling, handled, Pool, contains, mark_fd_processing,
  unmark_fd_processing, enqueue, on_readable, among, Step, readable, take_task, leave, unmark, stop,
  end, Reach, here, next, waiting_workers, new_pool,
}

-- How often a descriptor stands in a list, and how many workers are at it.
abbrev pub count : ℤ → List ℤ → ℕ
count fd [] = 0
count fd (x ∷ xs) = (if int_eq x fd then 1 else 0) + count fd xs

abbrev pub at_worker : ℤ → Worker → ℕ
at_worker fd (handling x) = if int_eq x fd then 1 else 0
at_worker fd (handled x) = if int_eq x fd then 1 else 0
at_worker fd _ = 0

abbrev pub at_workers : ℤ → List Worker → ℕ
at_workers fd [] = 0
at_workers fd (w ∷ ws) = at_worker fd w + at_workers fd ws

count-append : (fd : ℤ) (xs ys : List ℤ) → count fd (xs ++ ys) ≡ count fd xs + count fd ys
count-append fd [] ys = omega arith
count-append fd (x ∷ xs) ys = omega (arith, count-append fd xs ys)

at_workers-among :
    (fd : ℤ) (before : List Worker) (w : Worker) (after : List Worker)
    → at_workers fd (among before w after)
      ≡ at_workers fd before + at_worker fd w + at_workers fd after
at_workers-among fd [] w after = omega arith
at_workers-among fd (x ∷ before) w after = omega (arith, at_workers-among fd before w after)

contains-count : (fd : ℤ) (xs : List ℤ) → contains fd xs ≡ false → count fd xs ≡ 0
unfolding contains
contains-count fd [] h = refl
contains-count fd (x ∷ xs) h = ground (arith, contains-count fd xs)

abbrev is : ℤ → ℤ → ℕ
is x fd = if int_eq x fd then 1 else 0

-- A descriptor of the set is taken out of it, once.
count-unmark :
    (fd other : ℤ) (xs : List ℤ)
    → 1 ≤ count fd xs
    → count other (unmark_fd_processing fd xs) + is fd other ≡ count other xs
unfolding unmark_fd_processing
count-unmark fd other [] h = absurd (omega arith)
count-unmark fd other (x ∷ xs) h = elim (Bool-cases (int_eq x fd)) [
  | inl hit ↦ rw (hit, (int_eq_iff x fd).0 hit) (omega arith)
  | inr miss ↦ let ih = count-unmark fd other xs (ground arith) in rw miss (omega (arith, ih))
]

-- Every descriptor that is queued or at a worker is marked, once for each, and none is marked twice.
pub record IsExclusive (s : Pool) : Type 0 where
  pub marked : (fd : ℤ) → count fd s.tasks + at_workers fd s.workers ≡ count fd s.processing
  pub once : (fd : ℤ) → count fd s.processing ≤ 1

at_workers-waiting : (fd : ℤ) (n : ℕ) → at_workers fd (waiting_workers n) ≡ 0
unfolding waiting_workers
at_workers-waiting fd zero = refl
at_workers-waiting fd (suc n) = omega (arith, at_workers-waiting fd n)

new_pool-IsExclusive : (n : ℕ) → IsExclusive (new_pool n)
unfolding new_pool
new_pool-IsExclusive n = record {
  marked = λ fd. omega (arith, at_workers-waiting fd n);
  once = λ fd. omega arith;
}

on_readable-IsExclusive : (fd : ℤ) (s : Pool) → IsExclusive s → IsExclusive (on_readable fd s)
unfolding on_readable mark_fd_processing enqueue
on_readable-IsExclusive fd s i = elim (Bool-cases (contains fd s.processing)) [
  | inl busy ↦ rw busy i
  | inr free ↦ rw free (record {
    marked = λ x. omega (arith, i.marked x, count-append x s.tasks (fd ∷ []));
    once = λ x. elim (Bool-cases (int_eq fd x)) [
      | inl same ↦ rw same (
          let z =
            subst (λ y. count y s.processing ≡ 0) ((int_eq_iff fd x).0 same)
              (contains-count fd s.processing free) in
          omega (arith, z))
      | inr other ↦ rw other (omega (arith, i.once x))
    ];
  })
]

pub Step-IsExclusive : {s t : Pool} → Step s t → IsExclusive s → IsExclusive t
Step-IsExclusive {s} (readable fd running) i = on_readable-IsExclusive fd s i
Step-IsExclusive {s} (take_task before after fd rest ws ts) i = record {
  marked = λ x.
      let a = at_workers-among x before waiting after in
      let b = at_workers-among x before (handling fd) after in
      let m = rw (ws, ts) at (i.marked x) in omega (arith, a, b, m);
  once = i.once;
}
Step-IsExclusive {s} (leave before after fd ws) i = record {
  marked = λ x.
      let a = at_workers-among x before (handling fd) after in
      let b = at_workers-among x before (handled fd) after in
      let m = rw ws at (i.marked x) in omega (arith, a, b, m);
  once = i.once;
}
Step-IsExclusive {s} (unmark before after fd ws) i =
    let present : 1 ≤ count fd s.processing =
      (let a = at_workers-among fd before (handled fd) after in
        let m = rw ws at (i.marked fd) in
        let e = rw (int_eq_refl fd) at a in omega (arith, e, m)) in
    record {
      marked = λ x.
          let a = at_workers-among x before (handled fd) after in
          let b = at_workers-among x before waiting after in
          let m = rw ws at (i.marked x) in
          omega (arith, a, b, m, count-unmark fd x s.processing present);
      once = λ x. omega (arith, i.once x, count-unmark fd x s.processing present);
    }
Step-IsExclusive stop i = record { marked = i.marked; once = i.once }
Step-IsExclusive {s} (end before after ws st ts) i = record {
  marked = λ x.
      let a = at_workers-among x before waiting after in
      let b = at_workers-among x before ended after in
      let m = rw ws at (i.marked x) in omega (arith, a, b, m);
  once = i.once;
}

Reach-IsExclusive : {s t : Pool} → IsExclusive s → Reach s t → IsExclusive t
Reach-IsExclusive i here = i
Reach-IsExclusive i (next r st) = Step-IsExclusive st (Reach-IsExclusive i r)

-- In every state that the server's pool reaches, whatever turns the event loop and the workers take,
-- a descriptor is in the queue or at a worker once at most, and just where it is marked.
pub one_worker :
    (n : ℕ) (s : Pool) (fd : ℤ)
    → Reach (new_pool n) s
    → (count fd s.tasks + at_workers fd s.workers ≤ 1)
      × (count fd s.tasks + at_workers fd s.workers ≡ count fd s.processing)
one_worker n s fd r =
    let i = Reach-IsExclusive (new_pool-IsExclusive n) r in
    (omega (arith, i.once fd, i.marked fd), i.marked fd)

contains-marked : (fd : ℤ) (xs : List ℤ) → 1 ≤ count fd xs → contains fd xs ≡ true
unfolding contains
contains-marked fd [] h = absurd (omega arith)
contains-marked fd (x ∷ xs) h = ground (arith, contains-marked fd xs)

-- In every state that the pool reaches, while a worker that has closed a descriptor in handleClientFd
-- has not yet unmarked it, a readable event of that descriptor, which a new connection may have by
-- then, changes nothing: no task is pushed for it.
pub reused_fd_dropped :
    (n : ℕ) (s : Pool) (fd : ℤ) (before after : List Worker)
    → Reach (new_pool n) s
    → s.workers ≡ among before (handled fd) after
    → on_readable fd s ≡ s
unfolding on_readable mark_fd_processing
reused_fd_dropped n s fd before after r ws =
    let i = Reach-IsExclusive (new_pool-IsExclusive n) r in
    let a = at_workers-among fd before (handled fd) after in
    let m = rw ws at (i.marked fd) in
    let e = rw (int_eq_refl fd) at a in
    rw (contains-marked fd s.processing (omega (arith, e, m))) refl
