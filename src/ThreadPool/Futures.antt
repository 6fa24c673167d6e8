-- ===== src/ThreadPool/Futures.antt =====
-- The futures that `enqueue` returns. The queue holds packaged tasks: an exception of the function that
-- was enqueued ends in the future, and the worker goes on as after a return.
use dropbox_lite.Prelude.{
  sum_over, ℕ, ◌<◌, ◌≡◌, refl, ap, List, ◌∷◌, Option, none, some, arith, ◌==◌, ==_iff,
  if◌then◌else◌, Str, Bool-cases, inl, inr,
}
use dropbox_lite.ThreadPool.{
  Pool, Step, enqueue, take_task, begin, finish, leave, shut_down, Reachable, created, stepped,
  create,
}
use dropbox_lite.ThreadPool.Safety.{count, is_returned}
use dropbox_lite.ThreadPool.Waiting.{joined_finished}

-- How the function of a task ends.
pub data Outcome {ℓ} (V : Type ℓ) : Type ℓ where
  value : V → Outcome V
  exception : Str → Outcome V

module _ {ℓ} {V : Type ℓ} (body : ℕ → Outcome V) where
  -- A packaged task that has run makes its future ready.
  unfoldable pub settle : ℕ → (ℕ → Option (Outcome V)) → ℕ → Option (Outcome V)
  settle t futures u = if t == u then some (body t) else futures u

  abbrev pub after_step :
      {p q : Pool} → Step p q → (ℕ → Option (Outcome V)) → ℕ → Option (Outcome V)
  after_step (enqueue p t e) futures = futures
  after_step (take_task p us vs t ts e e') futures = futures
  after_step (begin p us vs t e) futures = futures
  after_step (finish p us vs t e) futures = settle t futures
  after_step (leave p us vs e e' e'') futures = futures
  after_step (shut_down p) futures = futures

  -- The futures at the end of a run.
  abbrev pub futures_of : {n : ℕ} {p : Pool} → Reachable n p → ℕ → Option (Outcome V)
  futures_of created = λ t. none
  futures_of (stepped p q r st) = after_step st (futures_of r)

  -- A future is ready exactly when its task has run, with what its function came to.
  abbrev pub IsSettled : List ℕ → (ℕ → Option (Outcome V)) → Type ℓ
  IsSettled finished futures =
      (t : ℕ)
      → (0 < count t finished → futures t ≡ some (body t))
        × (count t finished ≡ 0 → futures t ≡ none)

  settle-IsSettled :
      (u : ℕ) (finished : List ℕ) (futures : ℕ → Option (Outcome V))
      → IsSettled finished futures
      → IsSettled (u ∷ finished) (settle u futures)
  unfolding count settle
  settle-IsSettled u finished futures h t = elim (Bool-cases (u == t)) [
    | inl same ↦
        let e : u ≡ t = (==_iff u t).0 same in
        (
          λ some_run. rw same (ap (λ (k : ℕ). some (body k)) e),
          λ not_run. absurd (ground (arith, e)),
        )
    | inr other ↦ (
      λ some_run. rw other ((h t).0 (ground arith)),
      λ not_run. rw other ((h t).1 (ground arith)),
    )
  ]

  step-IsSettled :
      (p q : Pool) (st : Step p q) (futures : ℕ → Option (Outcome V))
      → IsSettled p.finished futures
      → IsSettled q.finished (after_step st futures)
  step-IsSettled p _ (enqueue _ t e) futures h = h
  step-IsSettled p _ (take_task _ us vs t ts e e') futures h = h
  step-IsSettled p _ (begin _ us vs t e) futures h = h
  step-IsSettled p _ (finish _ us vs t e) futures h = settle-IsSettled t p.finished futures h
  step-IsSettled p _ (leave _ us vs e e' e'') futures h = h
  step-IsSettled p _ (shut_down _) futures h = h

  futures_of-IsSettled :
      (n : ℕ) (p : Pool) (r : Reachable n p) → IsSettled p.finished (futures_of r)
  futures_of-IsSettled n _ created =
      λ t. (λ h. absurd (unfold count create in omega (arith, h)), λ e. refl)
  futures_of-IsSettled n q (stepped p _ r st) =
      step-IsSettled p q st (futures_of r) (futures_of-IsSettled n p r)

  -- When the destructor has joined every thread of a pool that has one, the future of every task that was
  -- enqueued is ready, with the value or the exception of that task, whatever order the threads ran in and
  -- whether or not tasks threw.
  pub futures_ready :
      (n : ℕ) (p : Pool) (r : Reachable n p)
      → 0 < n
      → sum_over is_returned p.workers ≡ n
      → (t : ℕ) → 0 < count t p.enqueued
      → futures_of r t ≡ some (body t)
  futures_ready n p r some_worker all t enqueued =
      (futures_of-IsSettled n p r t).0
        (omega (arith, enqueued, joined_finished n p r some_worker all t))
