-- ===== src/ThreadPool/Progress.antt =====
-- The workers come to an end of their work.
use dropbox_lite.Prelude.{
  sum_over, sum_over-move, ℕ, suc, ◌+◌, ◌*◌, ◌≤◌, ◌<◌, ◌≡◌, ◌≢◌, refl, ap, ◌∙◌, List, [], ◌∷◌, ◌++◌,
  arith, length,
}
use dropbox_lite.ThreadPool.{
  Worker, idle, taken, running, returned, Pool, Step, enqueue, take_task, begin, finish, leave,
  shut_down, Reachable, stepped,
}
use dropbox_lite.ThreadPool.Safety.{count, has_task, is_returned, IsSafe, Reachable-IsSafe}
use dropbox_lite.ThreadPool.Waiting.{one, Reachable-workers}

-- The steps of the workers; the others come from outside.
abbrev pub IsWork : {p q : Pool} → Step p q → Type 0
IsWork (enqueue p t e) = ⊥
IsWork (take_task p us vs t ts e e') = Unit
IsWork (begin p us vs t e) = Unit
IsWork (finish p us vs t e) = Unit
IsWork (leave p us vs e e' e'') = Unit
IsWork (shut_down p) = ⊥

-- Some steps of the workers, in any order.
pub data Works : ℕ → Pool → Pool → Type 0 where
  rest : (p : Pool) → Works 0 p p
  work : (k : ℕ) (p q r : Pool) (s : Step p q) → IsWork s → Works k q r → Works (suc k) p r

-- How many steps a worker, and a pool, have before them.
abbrev pub ahead : Worker → ℕ
ahead idle = 1
ahead (taken t) = 3
ahead (running t) = 2
ahead returned = 0

abbrev pub work_left : Pool → ℕ
work_left p = length p.tasks * 3 + sum_over ahead p.workers

Step-work_left : (p q : Pool) (s : Step p q) → IsWork s → suc (work_left q) ≤ work_left p
Step-work_left p _ (enqueue _ t e) w = absurd w
Step-work_left p _ (take_task _ us vs t ts e e') w =
    omega (arith, ap length e', sum_over-move ahead p.workers us vs idle (taken t) e)
Step-work_left p _ (begin _ us vs t e) w =
    omega (arith, sum_over-move ahead p.workers us vs (taken t) (running t) e)
Step-work_left p _ (finish _ us vs t e) w =
    omega (arith, sum_over-move ahead p.workers us vs (running t) idle e)
Step-work_left p _ (leave _ us vs e e' e'') w =
    omega (arith, sum_over-move ahead p.workers us vs idle returned e)
Step-work_left p _ (shut_down _) w = absurd w

Works-work_left : (k : ℕ) (p q : Pool) → Works k p q → k + work_left q ≤ work_left p
Works-work_left _ p _ (rest _) = omega arith
Works-work_left _ p r (work k _ q _ s w ws) =
    omega (arith, Step-work_left p q s w, Works-work_left k q r ws)

Works-Reachable : (n k : ℕ) (p q : Pool) → Reachable n p → Works k p q → Reachable n q
Works-Reachable n _ p _ h (rest _) = h
Works-Reachable n _ p r h (work k _ q _ s w ws) = Works-Reachable n k q r (stepped p q h s) ws

-- No worker can take a step.
abbrev pub Stuck : Pool → Type 0
Stuck p = (q : Pool) (s : Step p q) → IsWork s → ⊥

-- Somewhere in the list there is this worker.
abbrev Stands : List Worker → Worker → Type 0
Stands ws w = (us : List Worker) × (vs : List Worker) × (ws ≡ us ++ w ∷ vs)

Stands-cons : (v w : Worker) (ws : List Worker) → Stands ws w → Stands (v ∷ ws) w
Stands-cons v w ws (us, vs, e) = (v ∷ us, vs, ap (◌∷◌ v) e)

no_holder :
    (t : ℕ) (ws : List Worker)
    → ((u : ℕ) → Stands ws (taken u) → ⊥)
    → ((u : ℕ) → Stands ws (running u) → ⊥)
    → sum_over (has_task t) ws ≡ 0
unfolding sum_over
no_holder t [] h k = refl
no_holder t (taken u ∷ ws) h k = absurd (h u ([], ws, refl))
no_holder t (running u ∷ ws) h k = absurd (k u ([], ws, refl))
no_holder t (idle ∷ ws) h k = omega (
  arith,
  no_holder t ws (λ u s. h u (Stands-cons idle (taken u) ws s))
      (λ u s. k u (Stands-cons idle (running u) ws s)),
)
no_holder t (returned ∷ ws) h k = omega (
  arith,
  no_holder t ws (λ u s. h u (Stands-cons returned (taken u) ws s))
      (λ u s. k u (Stands-cons returned (running u) ws s)),
)

all_returned :
    (ws : List Worker)
    → ((w : Worker) → w ≢ returned → Stands ws w → ⊥)
    → sum_over is_returned ws ≡ sum_over one ws
unfolding sum_over
all_returned [] h = refl
all_returned (taken u ∷ ws) h = absurd (h (taken u) (λ e. cc) ([], ws, refl))
all_returned (running u ∷ ws) h = absurd (h (running u) (λ e. cc) ([], ws, refl))
all_returned (idle ∷ ws) h = absurd (h idle (λ e. cc) ([], ws, refl))
all_returned (returned ∷ ws) h =
    omega (arith, all_returned ws (λ w ne s. h w ne (Stands-cons returned w ws s)))

module _ (p : Pool) (stuck : Stuck p) where
  no_taken : (u : ℕ) → Stands p.workers (taken u) → ⊥
  no_taken u (us, vs, e) = stuck _ (begin p us vs u e) tt

  no_running : (u : ℕ) → Stands p.workers (running u) → ⊥
  no_running u (us, vs, e) = stuck _ (finish p us vs u e) tt

  no_idle : (t : ℕ) (ts : List ℕ) → p.tasks ≡ t ∷ ts → Stands p.workers idle → ⊥
  no_idle t ts e' (us, vs, e) = stuck _ (take_task p us vs t ts e e') tt

  only_returned :
      (t : ℕ) (ts : List ℕ)
      → p.tasks ≡ t ∷ ts
      → (w : Worker) → w ≢ returned
      → Stands p.workers w
      → ⊥
  only_returned t ts e idle ne = no_idle t ts e
  only_returned t ts e (taken u) ne = no_taken u
  only_returned t ts e (running u) ne = no_running u
  only_returned t ts e returned ne = absurd (ne refl)

  stuck-empty : (n : ℕ) → Reachable n p → 0 < n → p.tasks ≡ []
  stuck-empty n h some_worker = go p.tasks refl
    where
      v : IsSafe p
      v = Reachable-IsSafe n p h

      go : (ts : List ℕ) → p.tasks ≡ ts → p.tasks ≡ []
      go [] e = e
      go (t ∷ ts) e =
          (v.drained (
            omega
              (arith, all_returned p.workers (only_returned t ts e), Reachable-workers n p h))).1

-- In a pool with a worker, whatever order the workers run in, they take no more steps than there is work
-- for; and where none of them can take another, every task has been run as often as it was enqueued.
pub workers_finish :
    (n k : ℕ) (p q : Pool)
    → Reachable n p
    → 0 < n
    → Works k p q
    → Stuck q
    → (k ≤ work_left p) × ((t : ℕ) → count t q.enqueued ≡ count t q.finished)
workers_finish n k p q h some_worker ws stuck =
    let h' = Works-Reachable n k p q h ws in
    let v = Reachable-IsSafe n q h' in
    let empty = stuck-empty q stuck n h' some_worker in
    (
      omega (arith, Works-work_left k p q ws),
      λ t.
          let none_left : count t q.tasks ≡ 0 = ap (count t) empty ∙ (unfold count in refl) in
          omega
            (arith, v.conserved t, no_holder t q.workers (no_taken q stuck) (no_running q stuck)),
    )
