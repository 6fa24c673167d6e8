-- ===== src/RateLimiter/Race.antt =====
-- A race between the two reads of the tokens in `acquire`.
use dropbox_lite.Prelude.{
  ℕ, ◌+◌, ◌-◌, ◌*◌, ◌/◌, ◌^◌, ◌≤◌, ◌<◌, ◌≡◌, refl, ap, subst, ◌∙◌, List, [], ◌∷◌, ◌++◌, Bool, true,
  false, arith, if◌then◌else◌,
}
use dropbox_lite.Prelude.Words.{sub64}
use dropbox_lite.RateLimiter.{
  second, millisecond, Limiter, new, refill, try_acquire, available, wait_time,
}
use dropbox_lite.RateLimiter.Threads.{
  Thread, trying, refused, asleep, served, World, after_try, called, pass, call, measure, Reachable,
  begun, stepped, started,
}

-- A wait computed from more tokens than are asked for: the difference of two size_t values wraps.
wait_time-wraps :
    (bytes : ℕ) (s : Limiter)
    → bytes < available s
    → available s < 2 ^ 64
    → (2 ^ 64 + bytes - available s) * 1000 / s.bytes_per_second ≤ wait_time bytes s
unfolding wait_time
wait_time-wraps bytes s more small =
    let wrapped : sub64 bytes (available s) ≡ 2 ^ 64 + bytes - available s = omega arith in
    rw wrapped (ground arith)

call_as :
    (start w : World) (us vs : List Thread) (bytes : ℕ) (ok : Bool) (s : Limiter)
    → w.threads ≡ us ++ trying bytes ∷ vs
    → try_acquire bytes w.now w.limiter ≡ (ok, s)
    → Reachable start w
    → Reachable start (record {
      limiter = s;
      threads = us ++ after_try ok bytes ∷ vs;
      now = w.now;
      given = w.given + (if ok then bytes else 0);
    })
call_as start w us vs bytes ok s e t r =
    subst
      (λ (x : Bool × Limiter). Reachable start (record {
        limiter = x.1;
        threads = us ++ after_try x.0 bytes ∷ vs;
        now = w.now;
        given = w.given + (if x.0 then bytes else 0);
      }))
      t (stepped w (called w us vs bytes) r (call w us vs bytes e))

abbrev holding : ℕ → ℕ → ℕ → Limiter
holding rate tokens now = record {
  bytes_per_second = rate;
  burst_size = rate;
  tokens = tokens;
  last_refill = now;
}

new-holding : (rate : ℕ) → new rate rate 0 ≡ holding rate (rate * second) 0
unfolding new
new-holding rate = ground arith

-- What the call that is measured then sees.
abbrev sleeps : ℕ → ℕ → ℕ
sleeps rate bytes = wait_time bytes (holding rate (rate * second - second) second)

sleeps_long :
    (rate bytes : ℕ)
    → rate < 2 ^ 64
    → bytes + 1 < rate
    → (2 ^ 64 + bytes + 1 - rate) * 1000 / rate ≤ sleeps rate bytes
sleeps_long rate bytes small fits =
    let s = holding rate (rate * second - second) second in
    let held : available s ≡ rate - 1 = unfold available in omega arith in
    let e : 2 ^ 64 + bytes - available s ≡ 2 ^ 64 + bytes + 1 - rate = omega (arith, held) in
    subst (λ (n : ℕ). n * 1000 / rate ≤ sleeps rate bytes) e
      (wait_time-wraps bytes s (omega (arith, held)) (omega (arith, held)))

-- The bucket is emptied; a call is refused; a second later a third call fills the bucket.
emptied :
    (rate : ℕ) → try_acquire rate 0 (holding rate (rate * second) 0) ≡ (true, holding rate 0 0)
unfolding try_acquire refill
emptied rate = ground arith

short :
    (rate bytes : ℕ)
    → 0 < bytes
    → try_acquire bytes 0 (holding rate 0 0) ≡ (false, holding rate 0 0)
unfolding try_acquire refill
short rate bytes some = ground (arith, some)

filled :
    (rate : ℕ)
    → 1 < rate
    → try_acquire 1 second (holding rate 0 0) ≡ (true, holding rate (rate * second - second) second)
unfolding try_acquire refill
filled rate some = ground (arith, some)

-- A call of `acquire` for no more than the burst can be put to sleep for 2^64 bytes' worth of time, less
-- what the bucket holds: it is refused, another call refills the bucket before the first has read it
-- again, and the bytes that it lacks come out below zero. The limiter has a rate above 2000, at which
-- the sleep is still within an int64_t of milliseconds.
pub acquire_race :
    (rate bytes : ℕ)
    → 2000 < rate
    → rate < 2 ^ 64
    → 0 < bytes
    → bytes + 1 < rate
    → (w : World) × (until : ℕ) × Reachable
        (started rate rate 0 (trying rate ∷ trying bytes ∷ trying 1 ∷ []))
        w
      × (w.threads ≡ served rate ∷ asleep bytes until ∷ served 1 ∷ [])
      × (w.now + (2 ^ 64 + bytes + 1 - rate) * 1000 / rate * millisecond ≤ until)
acquire_race rate bytes fast small some fits =
    let start = started rate rate 0 (trying rate ∷ trying bytes ∷ trying 1 ∷ []) in
    let one : World = record {
      limiter = holding rate 0 0;
      threads = served rate ∷ trying bytes ∷ trying 1 ∷ [];
      now = 0;
      given = 0 + rate;
    } in
    let two : World = record one {
      threads = served rate ∷ refused bytes ∷ trying 1 ∷ [];
      given = one.given + 0;
    } in
    let four : World = record {
      limiter = holding rate (rate * second - second) second;
      threads = served rate ∷ refused bytes ∷ served 1 ∷ [];
      now = second;
      given = two.given + 1;
    } in
    let until = second + sleeps rate bytes * millisecond in
    let r1 : Reachable start one =
      call_as start start [] (trying bytes ∷ trying 1 ∷ []) rate true (holding rate 0 0) refl
        (ap (try_acquire rate 0) (new-holding rate) ∙ emptied rate) begun in
    let r2 : Reachable start two =
      call_as start one (served rate ∷ []) (trying 1 ∷ []) bytes false (holding rate 0 0) refl
        (short rate bytes some) r1 in
    let r4 : Reachable start four =
      call_as start (record two { now = second }) (served rate ∷ refused bytes ∷ []) [] 1 true
        (holding rate (rate * second - second) second) refl (filled rate (omega arith))
        (stepped two (record two { now = second }) r2 (pass two second)) in
    (
      record four { threads = served rate ∷ asleep bytes until ∷ served 1 ∷ [] },
      until,
      stepped four (record four { threads = served rate ∷ asleep bytes until ∷ served 1 ∷ [] }) r4
          (measure four (served rate ∷ []) (served 1 ∷ []) bytes refl),
      refl,
      omega (arith, sleeps_long rate bytes small fits),
    )
