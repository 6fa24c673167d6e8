-- ===== src/RateLimiter/Bucket.antt =====
-- The bucket: what it holds, and how many bytes it gives in a span of time.
use dropbox_lite.Prelude.{
  ◌∙◌, refl, ℕ, ◌+◌, ◌-◌, ◌*◌, ◌≤◌, ◌≡◌, subst, List, [], ◌∷◌, true, arith, if◌then◌else◌,
}
use dropbox_lite.RateLimiter.{second, Limiter, new, refill, try_acquire, set_rate}

-- A limiter whose bucket holds no more than its burst, and whose clock has not been turned back.
pub record IsFilled (now : ℕ) (s : Limiter) : Type 0 where
  pub held : s.tokens ≤ s.burst_size * second
  pub past : s.last_refill ≤ now

pub new-IsFilled : (rate burst now : ℕ) → IsFilled now (new rate burst now)
unfolding new
new-IsFilled rate burst now = ground arith

-- One try, in terms of the tokens: what is given comes out of what was there and what has flowed in.
pub try_acquire-IsFilled :
    (bytes now : ℕ) (s : Limiter)
    → s.last_refill ≤ now
    → IsFilled now (try_acquire bytes now s).1
      × ((try_acquire bytes now s).1.last_refill ≡ now)
      × ((try_acquire bytes now s).1.bytes_per_second ≡ s.bytes_per_second)
      × ((try_acquire bytes now s).1.burst_size ≡ s.burst_size)
      × ((if (try_acquire bytes now s).0 then bytes else 0) * second
            + (try_acquire bytes now s).1.tokens
          ≤ s.tokens + (now - s.last_refill) * s.bytes_per_second)
unfolding try_acquire refill
try_acquire-IsFilled bytes now s h = ground arith

-- Requests one after another, each some time after the one before; the bytes that were given.
unfoldable pub run : ℕ → List (ℕ × ℕ) → Limiter → ℕ × ℕ × Limiter
run now [] s = (0, now, s)
run now ((gap, bytes) ∷ rs) s =
    let (ok, s1) = try_acquire bytes (now + gap) s in
    let (given, end, s2) = run (now + gap) rs s1 in ((if ok then bytes else 0) + given, end, s2)

-- The budget of one request and of those behind it, together.
budget-join :
    (x y gap now end rate t0 t1 t2 : ℕ)
    → x * second + t1 ≤ t0 + gap * rate
    → now + gap ≤ end
    → y * second + t2 ≤ t1 + (end - (now + gap)) * rate
    → (x + y) * second + t2 ≤ t0 + (end - now) * rate
budget-join x y gap now end rate t0 t1 t2 h k l =
    let e : end - now ≡ gap + (end - (now + gap)) = omega arith in rw e (grind arith)

run_budget :
    (now : ℕ) (rs : List (ℕ × ℕ)) (s : Limiter)
    → s.last_refill ≡ now
    → (now ≤ (run now rs s).1)
      × ((run now rs s).0 * second + (run now rs s).2.tokens
          ≤ s.tokens + ((run now rs s).1 - now) * s.bytes_per_second)
unfolding run
run_budget now [] s e = ground arith
run_budget now ((gap, bytes) ∷ rs) s e =
    let one = try_acquire-IsFilled bytes (now + gap) s (omega arith) in
    let rest = run_budget (now + gap) rs (try_acquire bytes (now + gap) s).1 one.1 in
    let s1 = (try_acquire bytes (now + gap) s).1 in
    let flow : now + gap - s.last_refill ≡ gap = omega arith in
    (
      omega (arith, rest.0),
      budget-join (if (try_acquire bytes (now + gap) s).0 then bytes else 0)
          (run (now + gap) rs s1).0 gap now (run (now + gap) rs s1).1 s.bytes_per_second s.tokens
          s1.tokens (run (now + gap) rs s1).2.tokens
          (subst
            (λ d.
              (if (try_acquire bytes (now + gap) s).0 then bytes else 0) * second + s1.tokens
              ≤ s.tokens + d * s.bytes_per_second)
            flow one.4)
          rest.0
          (subst
            (λ r.
              (run (now + gap) rs s1).0 * second + (run (now + gap) rs s1).2.tokens
              ≤ s1.tokens + ((run (now + gap) rs s1).1 - (now + gap)) * r)
            one.2 rest.1),
    )

-- Some requests leave a limiter as one may find it at first: its bucket within the burst, its clock at the
-- last of them, its rate and burst the same.
run-IsFilled :
    (now : ℕ) (rs : List (ℕ × ℕ)) (s : Limiter)
    → s.last_refill ≡ now
    → s.tokens ≤ s.burst_size * second
    → ((run now rs s).2.last_refill ≡ (run now rs s).1)
      × ((run now rs s).2.tokens ≤ s.burst_size * second)
      × ((run now rs s).2.bytes_per_second ≡ s.bytes_per_second)
      × ((run now rs s).2.burst_size ≡ s.burst_size)
unfolding run
run-IsFilled now [] s e h = (e, h, refl, refl)
run-IsFilled now ((gap, bytes) ∷ rs) s e h =
    let s1 = (try_acquire bytes (now + gap) s).1 in
    let (filled, at, rate, burst, _) = try_acquire-IsFilled bytes (now + gap) s (omega arith) in
    let (at', held', rate', burst') = run-IsFilled (now + gap) rs s1 at filled.held in
    (
      at',
      subst (λ (b : ℕ). (run (now + gap) rs s1).2.tokens ≤ b * second) burst held',
      rate' ∙ rate,
      burst' ∙ burst,
    )

-- In any span of time, whatever is asked for in it and when, and whatever was asked for before it, a
-- limiter whose rate is not changed gives no more than its burst and what its rate makes of the span. The
-- bucket was within the burst at first.
pub run_bounded :
    (now : ℕ) (before rs : List (ℕ × ℕ)) (s : Limiter)
    → s.last_refill ≡ now
    → s.tokens ≤ s.burst_size * second
    → let (_, then', s') = run now before s in
      (run then' rs s').0 * second
      ≤ s.burst_size * second + ((run then' rs s').1 - then') * s.bytes_per_second
run_bounded now before rs s e h =
    let (at, held, rate, burst) = run-IsFilled now before s e h in
    let (_, end, s') = run now before s in
    let span = (run end rs s').1 - end in
    subst (λ (r : ℕ). (run end rs s').0 * second ≤ s.burst_size * second + span * r) rate
      (omega (arith, held, (run_budget end rs s' at).1))

-- A new rate counts for the time before it too: an empty limiter that was idle for a second gives, right
-- after `set_rate`, what the new rate makes of that second, whatever its rate was then.
pub set_rate_backdates :
    (rate now : ℕ) (s : Limiter)
    → s.tokens ≡ 0
    → s.last_refill + second ≡ now
    → (try_acquire rate now (set_rate rate s)).0 ≡ true
unfolding try_acquire refill set_rate
set_rate_backdates rate now s empty e =
    let idle : now - s.last_refill ≡ second = omega arith in rw idle (ground arith)
