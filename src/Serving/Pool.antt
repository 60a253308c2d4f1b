-- ===== src/Serving/Pool.antt =====
-- ServerOP.cpp and ThreadPool.cpp: the descriptors under way, the queue of tasks and the workers, and
-- the steps in which the event loop and the workers take turns.
use encrypted_transmission_d.Prelude.{
  ℕ, zero, suc, Bool, true, false, ◌||◌, List, [], ◌∷◌, ◌++◌, ℤ, int_eq, ◌≡◌, if◌then◌else◌,
}

-- A worker waits for a task, is in handleClientFd, has left it, or has ended.
pub data Worker : Type 0 where
  waiting ended : Worker
  handling handled : ℤ → Worker

-- m_processingFds, m_tasks (each task is a descriptor), m_workers and m_stop; and what has been pushed
-- to the queue and taken from it since the start, which the code does not keep.
pub record Pool : Type 0 where
  pub processing : List ℤ
  pub tasks : List ℤ
  pub workers : List Worker
  pub stopped : Bool
  pub pushed : List ℤ
  pub taken : List ℤ

-- `m_processingFds.count(fd) > 0`
unfoldable pub contains : ℤ → List ℤ → Bool
contains fd [] = false
contains fd (x ∷ xs) = int_eq x fd || contains fd xs

unfoldable pub mark_fd_processing : ℤ → List ℤ → Bool × List ℤ
mark_fd_processing fd set = if contains fd set then (false, set) else (true, fd ∷ set)

-- `m_processingFds.erase(fd)`, of a set that holds it once at most.
unfoldable pub unmark_fd_processing : ℤ → List ℤ → List ℤ
unmark_fd_processing fd [] = []
unmark_fd_processing fd (x ∷ xs) =
    let rest = unmark_fd_processing fd xs in if int_eq x fd then xs else x ∷ rest

-- ThreadPool::enqueue, of a pool that has not been stopped.
unfoldable pub enqueue : ℤ → Pool → Pool
enqueue fd s = record s { tasks = s.tasks ++ (fd ∷ []); pushed = s.pushed ++ (fd ∷ []) }

-- A readable descriptor in startServer.
unfoldable pub on_readable : ℤ → Pool → Pool
on_readable fd s =
    let (marked, processing) = mark_fd_processing fd s.processing in
    if marked then enqueue fd (record s { processing = processing }) else s

-- The worker that stands between others.
abbrev pub among : List Worker → Worker → List Worker → List Worker
among before w after = before ++ (w ∷ after)

pub data Step (s : Pool) : Pool → Type 0 where
  readable : (fd : ℤ) → s.stopped ≡ false → Step s (on_readable fd s)
  take_task :
      (before after : List Worker) (fd : ℤ) (rest : List ℤ)
      → s.workers ≡ among before waiting after
      → s.tasks ≡ fd ∷ rest
      → Step s (record s {
        tasks = rest;
        workers = among before (handling fd) after;
        taken = s.taken ++ (fd ∷ []);
      })
  leave :
      (before after : List Worker) (fd : ℤ)
      → s.workers ≡ among before (handling fd) after
      → Step s (record s { workers = among before (handled fd) after })
  unmark :
      (before after : List Worker) (fd : ℤ)
      → s.workers ≡ among before (handled fd) after
      → Step s (record s {
        processing = unmark_fd_processing fd s.processing;
        workers = among before waiting after;
      })
  stop : Step s (record s { stopped = true })
  end :
      (before after : List Worker)
      → s.workers ≡ among before waiting after
      → s.stopped ≡ true
      → s.tasks ≡ []
      → Step s (record s { workers = among before ended after })

pub data Reach (s : Pool) : Pool → Type 0 where
  here : Reach s s
  next : {t u : Pool} → Reach s t → Step t u → Reach s u

unfoldable pub waiting_workers : ℕ → List Worker
waiting_workers zero = []
waiting_workers (suc n) = waiting ∷ waiting_workers n

-- The pool that the server makes, with the number of its workers.
unfoldable pub new_pool : ℕ → Pool
unfolding waiting_workers
new_pool n = record {
  processing = [];
  tasks = [];
  workers = waiting_workers n;
  stopped = false;
  pushed = [];
  taken = [];
}
