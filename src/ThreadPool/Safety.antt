-- ===== src/ThreadPool/Safety.antt =====
-- No task is lost or run twice, and a worker returns only when all is done.
use dropbox_lite.Prelude.{
  sum_over, sum_over-move, ℕ, zero, suc, ◌+◌, ◌≡◌, refl, subst, sym, ap, ◌∙◌, List, [], ◌∷◌, ◌++◌,
  Bool, true, false, none, some, ◌↔◌, Bool-cases, inl, inr, arith, ◌==◌, if◌then◌else◌, ◌<◌,
}
use dropbox_lite.ThreadPool.{
  Worker, idle, taken, running, returned, Pool, idle_workers, create, Step, enqueue, take_task,
  begin, finish, leave, shut_down, enqueue_task, Reachable, created, stepped,
}

unfoldable pub count : ℕ → List ℕ → ℕ
count t [] = 0
count t (u ∷ us) = (if t == u then 1 else 0) + count t us

-- The task that a worker has, and whether it is in it.
abbrev pub has_task : ℕ → Worker → ℕ
has_task t (taken u) = if t == u then 1 else 0
has_task t (running u) = if t == u then 1 else 0
has_task t _ = 0

abbrev pub is_running : Worker → ℕ
is_running (running u) = 1
is_running _ = 0

abbrev pub is_returned : Worker → ℕ
is_returned returned = 1
is_returned _ = 0

pub count-append : (t : ℕ) (xs ys : List ℕ) → count t (xs ++ ys) ≡ count t xs + count t ys
unfolding count
count-append t [] ys = omega arith
count-append t (x ∷ xs) ys = omega (arith, count-append t xs ys)

-- Every task that came in is in the queue, with one worker, or finished, and in one place only; the
-- counter is the number of the running tasks; once a worker has returned, the pool is stopped and the
-- queue is empty.
pub record IsSafe (p : Pool) : Type 0 where
  pub conserved :
      (t : ℕ)
      → count t p.enqueued ≡ count t p.tasks + sum_over (has_task t) p.workers + count t p.finished
  pub counted : p.active_tasks ≡ sum_over is_running p.workers
  pub drained : 0 < sum_over is_returned p.workers → (p.stop ≡ true) × (p.tasks ≡ [])

count-cons : (t u : ℕ) (us : List ℕ) → count t (u ∷ us) ≡ (if t == u then 1 else 0) + count t us
unfolding count
count-cons t u us = refl

count-nil : (t : ℕ) → count t [] ≡ 0
unfolding count
count-nil t = refl

Step-IsSafe : (p q : Pool) → Step p q → IsSafe p → IsSafe q
Step-IsSafe p _ (enqueue _ t e) v = record {
  conserved = λ u. omega (
    arith,
    v.conserved u,
    count-append u p.tasks (t ∷ []),
    count-cons u t [],
    count-nil u,
    count-cons u t p.enqueued,
  );
  counted = v.counted;
  drained = λ r. absurd (stopped (v.drained r).0 e);
}
  where
    stopped : {b : Bool} → b ≡ true → b ≡ false → ⊥
    stopped h k = ground arith
Step-IsSafe p _ (take_task _ us vs t ts e e') v = record {
  conserved = λ u. omega (
    arith,
    v.conserved u,
    ap (count u) e',
    count-cons u t ts,
    sum_over-move (has_task u) p.workers us vs idle (taken t) e,
  );
  counted = omega (arith, v.counted, sum_over-move is_running p.workers us vs idle (taken t) e);
  drained = λ r. absurd (
      some_task (
        sym e'
        ∙ (v.drained
            (omega (arith, sum_over-move is_returned p.workers us vs idle (taken t) e))).1));
}
  where
    some_task : {x : ℕ} {xs : List ℕ} → x ∷ xs ≡ [] → ⊥
    some_task h = ground arith
Step-IsSafe p _ (begin _ us vs t e) v = record {
  conserved = λ u.
      omega
        (arith, v.conserved u, sum_over-move (has_task u) p.workers us vs (taken t) (running t) e);
  counted =
      omega (arith, v.counted, sum_over-move is_running p.workers us vs (taken t) (running t) e);
  drained = λ r.
      v.drained (omega (arith, sum_over-move is_returned p.workers us vs (taken t) (running t) e));
}
Step-IsSafe p _ (finish _ us vs t e) v = record {
  conserved = λ u. omega (
    arith,
    v.conserved u,
    count-cons u t p.finished,
    sum_over-move (has_task u) p.workers us vs (running t) idle e,
  );
  counted = omega (arith, v.counted, sum_over-move is_running p.workers us vs (running t) idle e);
  drained =
      λ r. v.drained (omega (arith, sum_over-move is_returned p.workers us vs (running t) idle e));
}
Step-IsSafe p _ (leave _ us vs e e' e'') v = record {
  conserved =
      λ u. omega (arith, v.conserved u, sum_over-move (has_task u) p.workers us vs idle returned e);
  counted = omega (arith, v.counted, sum_over-move is_running p.workers us vs idle returned e);
  drained = λ r. (e', e'');
}
Step-IsSafe p _ (shut_down _) v = record {
  conserved = v.conserved;
  counted = v.counted;
  drained = λ r. (refl, (v.drained r).1);
}

pub all_idle : (f : Worker → ℕ) (n : ℕ) → f idle ≡ 0 → sum_over f (idle_workers n) ≡ 0
unfolding sum_over idle_workers
all_idle f zero e = refl
all_idle f (suc n) e = omega (arith, e, all_idle f n e)

create-IsSafe : (n : ℕ) → IsSafe (create n)
unfolding create
create-IsSafe n = record {
  conserved = λ t. omega (arith, all_idle (has_task t) n refl, count-nil t);
  counted = omega (arith, all_idle is_running n refl);
  drained = λ r. absurd (omega (arith, all_idle is_returned n refl));
}

-- Every pool that can be reached is safe: whatever the threads' order, no task is lost or run twice,
-- the counter counts the running tasks, and no worker has returned before the pool was stopped and its
-- queue empty.
pub Reachable-IsSafe : (n : ℕ) (p : Pool) → Reachable n p → IsSafe p
Reachable-IsSafe n _ created = create-IsSafe n
Reachable-IsSafe n _ (stepped p q r s) = Step-IsSafe p q s (Reachable-IsSafe n p r)

-- `enqueue` throws exactly when the pool is stopped; otherwise it is a step, which puts the task last.
pub enqueue_task_lem :
    (t : ℕ) (p q : Pool)
    → (enqueue_task t p ≡ none ↔ p.stop ≡ true)
      × (enqueue_task t p ≡ some q → Step p q × (q.tasks ≡ p.tasks ++ t ∷ []))
unfolding enqueue_task
enqueue_task_lem t p q = (
  ground arith,
  λ e. elim (Bool-cases p.stop) [
    | inl on ↦ absurd (ground arith)
    | inr off ↦
        let same : record p { tasks = p.tasks ++ t ∷ []; enqueued = t ∷ p.enqueued } ≡ q =
          ground arith in
        (subst (Step p) same (enqueue p t off), ap (λ (r : Pool). r.tasks) (sym same))
  ],
)
