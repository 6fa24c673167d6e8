-- ===== src/Tests/Pools.antt =====
-- A pool with one thread, from its first task to the end.
use dropbox_lite.Prelude.{
  sum_over, sum_over-move, ℕ, ◌≡◌, ◌≤◌, refl, some, codes, List, [], ◌∷◌, Bool, true, false, arith,
}
use dropbox_lite.ThreadPool.{
  Worker, idle, taken, running, returned, Pool, create, idle_workers, enqueue, take_task, begin,
  finish, leave, shut_down, Reachable, created, stepped, wait_over,
}
use dropbox_lite.ThreadPool.Safety.{IsSafe, Reachable-IsSafe, count, is_running, is_running}
use dropbox_lite.ThreadPool.Futures.{Outcome, exception, futures_of, futures_ready}
use dropbox_lite.ThreadPool.Progress.{Stuck, work, rest, work_left, workers_finish}
use dropbox_lite.ThreadPool.Waiting.{wait_over_early}

abbrev at : List Worker → List ℕ → Bool → ℕ → List ℕ → Pool
at ws ts stop active finished = record {
  workers = ws;
  tasks = ts;
  stop = stop;
  active_tasks = active;
  enqueued = 7 ∷ [];
  finished = finished;
}

abbrev ended : Pool
ended = at (returned ∷ []) [] true 0 (7 ∷ [])

abbrev waiting : Pool
waiting = at (taken 7 ∷ []) [] false 0 []

waiting-Reachable : Reachable 1 waiting
unfolding create idle_workers
waiting-Reachable =
    stepped (at (idle ∷ []) (7 ∷ []) false 0 []) waiting
      (stepped (create 1) (at (idle ∷ []) (7 ∷ []) false 0 []) created (enqueue (create 1) 7 refl))
      (take_task (at (idle ∷ []) (7 ∷ []) false 0 []) [] [] 7 [] refl refl)

abbrev in_task : Pool
in_task = at (running 7 ∷ []) [] false 1 []

ended-Reachable : Reachable 1 ended
ended-Reachable =
    let idle_again = at (idle ∷ []) [] false 0 (7 ∷ []) in
    let stopped = at (idle ∷ []) [] true 0 (7 ∷ []) in
    stepped stopped ended
      (stepped idle_again stopped
        (stepped in_task idle_again
          (stepped waiting in_task waiting-Reachable (begin waiting [] [] 7 refl))
          (finish in_task [] [] 7 refl))
        (shut_down idle_again))
      (leave stopped [] [] refl refl refl)

pool_example : IsSafe ended
pool_example = Reachable-IsSafe 1 ended ended-Reachable

wait_early_example :
    (p : Pool) × Reachable 2 p
    × (wait_over p ≡ true)
    × (count 7 p.enqueued ≡ 1)
    × (count 7 p.finished ≡ 0)
wait_early_example = wait_over_early 1 7

-- The thread has run the task and waits.
abbrev at_rest : Pool
at_rest = at (idle ∷ []) [] false 0 (7 ∷ [])

abbrev is_taken : Worker → ℕ
is_taken (taken t) = 1
is_taken _ = 0

at_rest-Stuck : Stuck at_rest
unfolding sum_over
at_rest-Stuck _ (enqueue _ t e) w = w
at_rest-Stuck _ (take_task _ us vs t ts e e') w = cc
at_rest-Stuck _ (begin _ us vs t e) w =
    omega (arith, sum_over-move is_taken at_rest.workers us vs (taken t) (running t) e)
at_rest-Stuck _ (finish _ us vs t e) w =
    omega (arith, sum_over-move is_running at_rest.workers us vs (running t) idle e)
at_rest-Stuck _ (leave _ us vs e e' e'') w = cc
at_rest-Stuck _ (shut_down _) w = w

workers_finish_example :
    (2 ≤ work_left waiting) × ((t : ℕ) → count t at_rest.enqueued ≡ count t at_rest.finished)
workers_finish_example =
    workers_finish 1 2 waiting at_rest waiting-Reachable (omega arith)
      (work 1 waiting in_task at_rest (begin waiting [] [] 7 refl) tt
        (work 0 in_task at_rest at_rest (finish in_task [] [] 7 refl) tt (rest at_rest)))
      at_rest-Stuck

-- The task throws.
abbrev thrown : ℕ → Outcome ℕ
thrown t = exception (codes "x")

futures_example : futures_of thrown ended-Reachable 7 ≡ some (thrown 7)
unfolding sum_over count
futures_example = futures_ready thrown 1 ended ended-Reachable (omega arith) refl 7 (omega arith)
