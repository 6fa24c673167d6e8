-- ===== src/RateLimiter/Threads.antt =====
-- Several threads in `acquire`. `tryAcquire` runs under the lock; `available` reads the tokens without
-- it, after `tryAcquire` has returned.
use native.Mathlib.Nat.{mul-le-mul_right}
use dropbox_lite.Prelude.{
  ℕ, ◌+◌, ◌-◌, ◌*◌, ◌≤◌, ◌≡◌, refl, sym, subst, ◌∙◌, List, ◌∷◌, ◌++◌, Bool, arith, if◌then◌else◌,
}
use dropbox_lite.RateLimiter.{second, millisecond, Limiter, new, try_acquire, wait_time}
use dropbox_lite.RateLimiter.Bucket.{try_acquire-IsFilled}

-- Where a thread is in its call for some bytes: before `tryAcquire`, refused and about to read the
-- tokens, in its sleep up to a time, or returned.
pub data Thread : Type 0 where
  trying : ℕ → Thread
  refused : ℕ → Thread
  asleep : ℕ → ℕ → Thread
  served : ℕ → Thread

-- `given` counts the bytes that calls have been given.
pub record World : Type 0 where
  pub limiter : Limiter
  pub threads : List Thread
  pub now : ℕ
  pub given : ℕ

abbrev pub after_try : Bool → ℕ → Thread
after_try ok bytes = if ok then served bytes else refused bytes

abbrev pub called : World → List Thread → List Thread → ℕ → World
called w us vs bytes =
    let (ok, s) = try_acquire bytes w.now w.limiter in
    record {
      limiter = s;
      threads = us ++ after_try ok bytes ∷ vs;
      now = w.now;
      given = w.given + (if ok then bytes else 0);
    }

pub data Step : World → World → Type 0 where
  pass : (w : World) (d : ℕ) → Step w (record w { now = w.now + d })
  call :
      (w : World) (us vs : List Thread) (bytes : ℕ)
      → w.threads ≡ us ++ trying bytes ∷ vs
      → Step w (called w us vs bytes)
  -- The wait is computed from the tokens as they are now.
  measure :
      (w : World) (us vs : List Thread) (bytes : ℕ)
      → w.threads ≡ us ++ refused bytes ∷ vs
      → Step w (record w {
        threads = us ++ asleep bytes (w.now + wait_time bytes w.limiter * millisecond) ∷ vs;
      })
  wake :
      (w : World) (us vs : List Thread) (bytes until : ℕ)
      → w.threads ≡ us ++ asleep bytes until ∷ vs
      → until ≤ w.now
      → Step w (record w { threads = us ++ trying bytes ∷ vs })

pub data Reachable (start : World) : World → Type 0 where
  begun : Reachable start start
  stepped : (w v : World) → Reachable start w → Step w v → Reachable start v

-- The threads of a program that has just made its limiter.
abbrev pub started : ℕ → ℕ → ℕ → List Thread → World
started rate burst now threads = record {
  limiter = new rate burst now;
  threads = threads;
  now = now;
  given = 0;
}

-- The budget since `start`.
record InBudget (start : World) (w : World) : Type 0 where
  rate : w.limiter.bytes_per_second ≡ start.limiter.bytes_per_second
  burst : w.limiter.burst_size ≡ start.limiter.burst_size
  since : start.now ≤ w.limiter.last_refill
  past : w.limiter.last_refill ≤ w.now
  spent :
      w.given * second + w.limiter.tokens
      ≤ start.limiter.burst_size * second
        + (w.limiter.last_refill - start.now) * start.limiter.bytes_per_second

-- One call under the lock.
spend :
    (given bytes t0 t1 b start last now rate : ℕ)
    → start ≤ last
    → last ≤ now
    → given * second + t0 ≤ b + (last - start) * rate
    → bytes * second + t1 ≤ t0 + (now - last) * rate
    → (given + bytes) * second + t1 ≤ b + (now - start) * rate
spend given bytes t0 t1 b start last now rate h k l m =
    let e : now - start ≡ (last - start) + (now - last) = omega arith in rw e (grind arith)

Step-InBudget : (start w v : World) → Step w v → InBudget start w → InBudget start v
Step-InBudget start w _ (pass _ d) h = record {
  rate = h.rate;
  burst = h.burst;
  since = h.since;
  past = omega (arith, h.past);
  spent = h.spent;
}
Step-InBudget start w _ (measure _ us vs bytes e) h = record {
  rate = h.rate;
  burst = h.burst;
  since = h.since;
  past = h.past;
  spent = h.spent;
}
Step-InBudget start w _ (wake _ us vs bytes until e late) h = record {
  rate = h.rate;
  burst = h.burst;
  since = h.since;
  past = h.past;
  spent = h.spent;
}
Step-InBudget start w _ (call _ us vs bytes e) h =
    let (filled, at, rate, burst, given) = try_acquire-IsFilled bytes w.now w.limiter h.past in
    let paid = if (try_acquire bytes w.now w.limiter).0 then bytes else 0 in
    let s = (try_acquire bytes w.now w.limiter).1 in
    record {
      rate = rate ∙ h.rate;
      burst = burst ∙ h.burst;
      since = omega (arith, h.since, h.past, at);
      past = omega (arith, at);
      spent =
          subst
            (λ (t : ℕ).
              (w.given + paid) * second + s.tokens
              ≤ start.limiter.burst_size * second
                + (t - start.now) * start.limiter.bytes_per_second)
            (sym at)
            (spend w.given paid w.limiter.tokens s.tokens (start.limiter.burst_size * second)
              start.now w.limiter.last_refill w.now start.limiter.bytes_per_second h.since h.past
              h.spent
              (subst
                (λ (r : ℕ).
                  paid * second + s.tokens ≤ w.limiter.tokens + (w.now - w.limiter.last_refill) * r)
                h.rate given));
    }

Reachable-InBudget :
    (start w : World)
    → start.limiter.last_refill ≡ start.now
    → start.limiter.tokens ≤ start.limiter.burst_size * second
    → start.given ≡ 0
    → Reachable start w
    → InBudget start w
Reachable-InBudget start _ e h z begun = record {
  rate = refl;
  burst = refl;
  since = omega (arith, e);
  past = omega (arith, e);
  spent = omega (arith, e, h, z);
}
Reachable-InBudget start v e h z (stepped w _ r st) =
    Step-InBudget start w v st (Reachable-InBudget start w e h z r)

-- Whatever the threads ask for and in whatever order they run, what they have been given together is never
-- more than the burst and what the rate makes of the time since the limiter was made.
pub threads_bounded :
    (rate burst now : ℕ) (threads : List Thread) (w : World)
    → Reachable (started rate burst now threads) w
    → w.given * second ≤ w.limiter.burst_size * second + (w.now - now) * rate
unfolding new
threads_bounded rate burst now threads w r =
    let h = Reachable-InBudget (started rate burst now threads) w refl (ground arith) refl r in
    let later =
      mul-le-mul_right {m = w.limiter.last_refill - now} {n = w.now - now} rate
        (omega (arith, h.past)) in
    omega (arith, h.spent, h.burst, later)
