-- ===== src/ThreadPool.antt =====
-- ThreadPool (include/common/thread_pool.h, src/common/thread_pool.cpp) as a step relation: a step is
-- what one thread does while it holds the lock, or on the atomic counter. Tasks are numbered; a task
-- returns. A thread that waits for a condition takes its step once the condition holds.
pub mod Safety
pub mod Waiting
pub mod Progress
pub mod Futures
use dropbox_lite.Prelude.{
  ℕ, zero, suc, ◌+◌, ◌-◌, ◌≡◌, List, [], ◌∷◌, ◌++◌, Option, none, some, Bool, true, false,
  if◌then◌else◌, ◌&&◌, length, ◌==◌,
}

-- Where a worker is in its loop: at the condition, with a task it has taken, in the task, or returned.
pub data Worker : Type 0 where
  idle : Worker
  taken : ℕ → Worker
  running : ℕ → Worker
  returned : Worker

-- `enqueued` and `finished` record what has happened; the code keeps neither.
pub record Pool : Type 0 where
  pub workers : List Worker
  pub tasks : List ℕ
  pub stop : Bool
  pub active_tasks : ℕ
  pub enqueued : List ℕ
  pub finished : List ℕ

unfoldable pub idle_workers : ℕ → List Worker
idle_workers zero = []
idle_workers (suc n) = idle ∷ idle_workers n

unfoldable pub create : ℕ → Pool
create num_threads = record {
  workers = idle_workers num_threads;
  tasks = [];
  stop = false;
  active_tasks = 0;
  enqueued = [];
  finished = [];
}

pub data Step : Pool → Pool → Type 0 where
  -- `enqueue` throws once the pool is stopped.
  enqueue :
      (p : Pool) (t : ℕ)
      → p.stop ≡ false
      → Step p (record p { tasks = p.tasks ++ t ∷ []; enqueued = t ∷ p.enqueued })
  -- A worker pops the first task, and lets the lock go.
  take_task :
      (p : Pool) (us vs : List Worker) (t : ℕ) (ts : List ℕ)
      → p.workers ≡ us ++ idle ∷ vs
      → p.tasks ≡ t ∷ ts
      → Step p (record p { workers = us ++ taken t ∷ vs; tasks = ts })
  -- `active_tasks_++`, and the task begins.
  begin :
      (p : Pool) (us vs : List Worker) (t : ℕ)
      → p.workers ≡ us ++ taken t ∷ vs
      → Step p (record p { workers = us ++ running t ∷ vs; active_tasks = p.active_tasks + 1 })
  -- The task has returned, and `active_tasks_--`.
  finish :
      (p : Pool) (us vs : List Worker) (t : ℕ)
      → p.workers ≡ us ++ running t ∷ vs
      → Step p (record p {
        workers = us ++ idle ∷ vs;
        active_tasks = p.active_tasks - 1;
        finished = t ∷ p.finished;
      })
  -- A worker returns when the pool is stopped and the queue is empty.
  leave :
      (p : Pool) (us vs : List Worker)
      → p.workers ≡ us ++ idle ∷ vs
      → p.stop ≡ true
      → p.tasks ≡ []
      → Step p (record p { workers = us ++ returned ∷ vs })
  -- The destructor's flag.
  shut_down : (p : Pool) → Step p (record p { stop = true })

-- `enqueue` as it is called: `none` is the exception.
unfoldable pub enqueue_task : ℕ → Pool → Option Pool
enqueue_task t p =
    if p.stop
    then none
    else some (record p { tasks = p.tasks ++ t ∷ []; enqueued = t ∷ p.enqueued })

unfoldable pub size : Pool → ℕ
size p = length p.workers

-- What a pool of `n` threads can come to.
pub data Reachable (n : ℕ) : Pool → Type 0 where
  created : Reachable n (create n)
  stepped : (p q : Pool) → Reachable n p → Step p q → Reachable n q

unfoldable pub pending : Pool → ℕ
pending p = length p.tasks

unfoldable pub is_empty : List ℕ → Bool
is_empty [] = true
is_empty (t ∷ ts) = false

-- What `wait` waits for.
unfoldable pub wait_over : Pool → Bool
unfolding is_empty
wait_over p = is_empty p.tasks && (p.active_tasks == 0)
