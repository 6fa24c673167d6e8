-- ===== src/ThreadPool/Waiting.antt =====
-- What the destructor's joins and `wait` promise.
use dropbox_lite.Prelude.{
  sum_over, sum_over-move, ℕ, zero, suc, ◌+◌, ◌≤◌, ◌<◌, ◌≡◌, refl, ap, ◌∙◌, List, [], ◌∷◌, true,
  arith, ◌==◌, if◌then◌else◌,
}
use dropbox_lite.ThreadPool.{
  Worker, idle, taken, running, returned, Pool, idle_workers, create, Step, enqueue, take_task,
  begin, finish, leave, shut_down, Reachable, created, stepped, is_empty, wait_over,
}
use dropbox_lite.ThreadPool.Safety.{count, has_task, is_running, is_returned, Reachable-IsSafe}

abbrev pub one : Worker → ℕ
one w = 1

ones : (n : ℕ) → sum_over one (idle_workers n) ≡ n
unfolding sum_over idle_workers
ones zero = refl
ones (suc n) = omega (arith, ones n)

Step-workers : (p q : Pool) → Step p q → sum_over one q.workers ≡ sum_over one p.workers
Step-workers p _ (enqueue _ t e) = refl
Step-workers p _ (take_task _ us vs t ts e e') =
    omega (arith, sum_over-move one p.workers us vs idle (taken t) e)
Step-workers p _ (begin _ us vs t e) =
    omega (arith, sum_over-move one p.workers us vs (taken t) (running t) e)
Step-workers p _ (finish _ us vs t e) =
    omega (arith, sum_over-move one p.workers us vs (running t) idle e)
Step-workers p _ (leave _ us vs e e' e'') =
    omega (arith, sum_over-move one p.workers us vs idle returned e)
Step-workers p _ (shut_down _) = refl

-- The number of workers stays what the constructor was given.
pub Reachable-workers : (n : ℕ) (p : Pool) → Reachable n p → sum_over one p.workers ≡ n
Reachable-workers n _ created = unfold create in ones n
Reachable-workers n _ (stepped p q r s) = Step-workers p q s ∙ Reachable-workers n p r

-- A worker that has returned has no task.
busy_or_returned :
    (t : ℕ) (ws : List Worker)
    → sum_over (has_task t) ws + sum_over is_returned ws ≤ sum_over one ws
unfolding sum_over
busy_or_returned t [] = omega arith
busy_or_returned t (idle ∷ ws) = omega (arith, busy_or_returned t ws)
busy_or_returned t (taken u ∷ ws) = ground (arith, busy_or_returned t ws)
busy_or_returned t (running u ∷ ws) = ground (arith, busy_or_returned t ws)
busy_or_returned t (returned ∷ ws) = omega (arith, busy_or_returned t ws)

-- When the destructor has joined every thread of a pool that has one, each task that was ever enqueued
-- has been run, as often as it was enqueued.
pub joined_finished :
    (n : ℕ) (p : Pool)
    → Reachable n p
    → 0 < n
    → sum_over is_returned p.workers ≡ n
    → (t : ℕ) → count t p.enqueued ≡ count t p.finished
joined_finished n p r some_worker all t =
    let v = Reachable-IsSafe n p r in
    let empty = (v.drained (omega arith)).1 in
    let none_left : count t p.tasks ≡ 0 = ap (count t) empty ∙ (unfold count in refl) in
    omega (arith, v.conserved t, busy_or_returned t p.workers, Reachable-workers n p r)

-- The task that a worker has taken from the queue and not begun.
abbrev pub has_taken : ℕ → Worker → ℕ
has_taken t (taken u) = if t == u then 1 else 0
has_taken t _ = 0

not_running :
    (t : ℕ) (ws : List Worker)
    → sum_over is_running ws ≡ 0
    → sum_over (has_task t) ws ≡ sum_over (has_taken t) ws
unfolding sum_over
not_running t [] h = refl
not_running t (idle ∷ ws) h = omega (arith, not_running t ws (omega arith))
not_running t (taken u ∷ ws) h = omega (arith, not_running t ws (omega arith))
not_running t (running u ∷ ws) h = absurd (omega arith)
not_running t (returned ∷ ws) h = omega (arith, not_running t ws (omega arith))

is_empty-count : (t : ℕ) (ts : List ℕ) → is_empty ts ≡ true → count t ts ≡ 0
unfolding is_empty count
is_empty-count t [] h = refl
is_empty-count t (u ∷ us) h = cc

-- When `wait` returns, a task that is not finished is one that a worker has taken and not begun.
pub wait_over-finished :
    (n : ℕ) (p : Pool)
    → Reachable n p
    → wait_over p ≡ true
    → (t : ℕ) → count t p.enqueued ≡ count t p.finished + sum_over (has_taken t) p.workers
unfolding wait_over
wait_over-finished n p r over t =
    let v = Reachable-IsSafe n p r in
    let empty : is_empty p.tasks ≡ true = ground arith in
    let inactive : p.active_tasks ≡ 0 = ground arith in
    omega (
      arith,
      v.conserved t,
      is_empty-count t p.tasks empty,
      not_running t p.workers (omega (arith, v.counted)),
    )

-- And such tasks there can be: with any number of workers, `wait` may return while a task that was
-- enqueued has not been run.
pub wait_over_early :
    (n t : ℕ)
    → (p : Pool) × Reachable (suc n) p
      × (wait_over p ≡ true)
      × (count t p.enqueued ≡ 1)
      × (count t p.finished ≡ 0)
unfolding wait_over is_empty count create idle_workers
wait_over_early n t =
    let p1 = record (create (suc n)) { tasks = t ∷ []; enqueued = t ∷ [] } in
    let p2 = record p1 { workers = taken t ∷ idle_workers n; tasks = [] } in
    (
      p2,
      stepped p1 p2 (stepped (create (suc n)) p1 created (enqueue (create (suc n)) t refl))
          (take_task p1 [] (idle_workers n) t [] refl refl),
      refl,
      ground arith,
      refl,
    )
