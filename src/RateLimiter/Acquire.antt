-- ===== src/RateLimiter/Acquire.antt =====
-- When `acquire` returns.
use native.Mathlib.Nat.{lt-div-mul-add, mul-le-mul_right}
use dropbox_lite.Prelude.{
  ℕ, zero, suc, ◌+◌, ◌-◌, ◌*◌, ◌/◌, ◌^◌, ◌≤◌, ◌<◌, ◌≡◌, ◌≢◌, ◌⊎◌, refl, sym, ap, subst, ◌∙◌, true,
  false, arith, Bool-cases, inl, inr,
}
use dropbox_lite.Prelude.Words.{sub64}
use dropbox_lite.RateLimiter.{
  second, millisecond, Limiter, refill, try_acquire, available, wait_time, acquire, Acquired,
  acquired, waiting,
}

-- A try where enough has flowed in gives the bytes; any other leaves the bucket with what has.
try_acquire_enough :
    (bytes now : ℕ) (s : Limiter)
    → bytes ≤ s.burst_size
    → bytes * second ≤ s.tokens + (now - s.last_refill) * s.bytes_per_second
    → (try_acquire bytes now s).0 ≡ true
unfolding try_acquire refill
try_acquire_enough bytes now s small enough = ground arith

try_acquire-rate :
    (bytes now : ℕ) (s : Limiter)
    → ((try_acquire bytes now s).1.bytes_per_second ≡ s.bytes_per_second)
      × ((try_acquire bytes now s).1.burst_size ≡ s.burst_size)
unfolding try_acquire refill
try_acquire-rate bytes now s = ground arith

-- A try that is refused leaves the bucket with what has flowed in, which is too little.
try_acquire_short :
    (bytes now : ℕ) (s : Limiter)
    → bytes ≤ s.burst_size
    → (try_acquire bytes now s).0 ≡ false
    → ((try_acquire bytes now s).1.tokens ≡ s.tokens + (now - s.last_refill) * s.bytes_per_second)
      × ((try_acquire bytes now s).1.tokens < bytes * second)
      × ((try_acquire bytes now s).1.last_refill ≡ now)
unfolding try_acquire refill
try_acquire_short bytes now s small refused = ground arith

refused_over :
    (bytes now : ℕ) (s : Limiter) → s.burst_size < bytes → (try_acquire bytes now s).0 ≢ true
unfolding try_acquire refill
refused_over bytes now s over given = ground arith

acquire-suc :
    (rounds : ℕ) (delay : ℕ → ℕ) (bytes now : ℕ) (s : Limiter)
    → 0 < s.bytes_per_second
    → ((try_acquire bytes now s).0 ≡ true
        × (acquire (suc rounds) delay bytes now s ≡ acquired (try_acquire bytes now s).1 now))
      ⊎ ((try_acquire bytes now s).0 ≡ false
          × (acquire (suc rounds) delay bytes now s
              ≡ acquire rounds
                  (λ i. delay (suc i))
                  bytes
                  (now + (wait_time bytes (try_acquire bytes now s).1 * millisecond + delay 0))
                  (try_acquire bytes now s).1))
unfolding acquire
acquire-suc rounds delay bytes now s some_rate = elim (Bool-cases (try_acquire bytes now s).0) [
  | inl given ↦ inl (given, rw given)
  | inr short ↦ inr (short, rw short (ground (arith, try_acquire-rate bytes now s)))
]

sleep-covers :
    (n rate q ms have want : ℕ)
    → n * 1000 < q * rate + rate
    → q ≤ ms
    → want ≤ have + n * second
    → want ≤ have + ms * millisecond * rate + millisecond * rate
sleep-covers n rate q ms have want h k l = grind (arith, mul-le-mul_right rate k)

-- The sleep is shorter than what is missing takes to flow in by less than a millisecond.
wait_time_enough :
    (bytes : ℕ) (s : Limiter)
    → 0 < s.bytes_per_second
    → bytes < 2 ^ 64
    → s.tokens < bytes * second
    → (1 ≤ wait_time bytes s)
      × (bytes * second
          ≤ s.tokens
            + wait_time bytes s * millisecond * s.bytes_per_second
            + millisecond * s.bytes_per_second)
unfolding wait_time available
wait_time_enough bytes s some_rate small short =
    let n = bytes - s.tokens / second in
    let missing : sub64 bytes (s.tokens / second) ≡ n = omega arith in
    rw missing (
      ground arith,
      sleep-covers n s.bytes_per_second (n * 1000 / s.bytes_per_second) _ s.tokens (bytes * second)
          (lt-div-mul-add some_rate) (ground arith) (omega arith),
    )

-- The call ends with the bytes.
abbrev pub Returns : Acquired → Type 0
Returns r = (t : ℕ) × (s' : Limiter) × (r ≡ acquired s' t)

-- The round in which enough has flowed in.
acquire_last :
    (rounds : ℕ) (delay : ℕ → ℕ) (bytes now k : ℕ) (s : Limiter)
    → bytes ≤ s.burst_size
    → now - s.last_refill ≡ k
    → bytes * second ≤ s.tokens + k * s.bytes_per_second
    → Returns (acquire (suc rounds) delay bytes now s)
unfolding acquire
acquire_last rounds delay bytes now k s fits e enough =
    let given : (try_acquire bytes now s).0 ≡ true =
      try_acquire_enough bytes now s fits
        (subst (λ (d : ℕ). bytes * second ≤ s.tokens + d * s.bytes_per_second) (sym e) enough) in
    (now, (try_acquire bytes now s).1, rw given)

-- The round before it, in which less than a millisecond's worth is missing.
acquire_next :
    (rounds : ℕ) (delay : ℕ → ℕ) (bytes now k : ℕ) (s : Limiter)
    → 0 < s.bytes_per_second
    → bytes ≤ s.burst_size
    → bytes < 2 ^ 64
    → now - s.last_refill ≡ k
    → bytes * second ≤ s.tokens + k * s.bytes_per_second + millisecond * s.bytes_per_second
    → Returns (acquire (suc (suc rounds)) delay bytes now s)
acquire_next rounds delay bytes now k s some_rate fits small e almost =
    elim (acquire-suc (suc rounds) delay bytes now s some_rate) [
      | inl (_, r) ↦ (now, (try_acquire bytes now s).1, r)
      | inr (refused, r) ↦
          let s1 = (try_acquire bytes now s).1 in
          let w = wait_time bytes s1 * millisecond + delay 0 in
          let (held, short, at) = try_acquire_short bytes now s fits refused in
          let (rate, burst) = try_acquire-rate bytes now s in
          let (awake, _) = wait_time_enough bytes s1 (omega arith) small short in
          let worth =
            mul-le-mul_right {m = millisecond} {n = w} s1.bytes_per_second (omega arith) in
          let flowed = ap (λ (t : ℕ). t * s.bytes_per_second) e in
          subst Returns (sym r) (
            acquire_last rounds (λ i. delay (suc i)) bytes (now + w) w s1 (omega arith)
              (omega arith) (omega arith))
    ]

-- A limiter with a rate gives any number of bytes up to its burst in at most three rounds, however late the
-- sleeps end.
pub acquire_three :
    (rounds : ℕ) (delay : ℕ → ℕ) (bytes now : ℕ) (s : Limiter)
    → 0 < s.bytes_per_second
    → bytes ≤ s.burst_size
    → bytes < 2 ^ 64
    → Returns (acquire (suc (suc (suc rounds))) delay bytes now s)
acquire_three rounds delay bytes now s some_rate fits small =
    elim (acquire-suc (suc (suc rounds)) delay bytes now s some_rate) [
      | inl (_, r) ↦ (now, (try_acquire bytes now s).1, r)
      | inr (refused, r) ↦
          let s1 = (try_acquire bytes now s).1 in
          let w = wait_time bytes s1 * millisecond + delay 0 in
          let (held, short, at) = try_acquire_short bytes now s fits refused in
          let (rate, burst) = try_acquire-rate bytes now s in
          let (_, covered) = wait_time_enough bytes s1 (omega arith) small short in
          let worth =
            mul-le-mul_right {m = wait_time bytes s1 * millisecond} {n = w} s1.bytes_per_second
              (omega arith) in
          subst Returns (sym r) (
            acquire_next rounds (λ i. delay (suc i)) bytes (now + w) w s1 (omega arith)
              (omega arith) small (omega arith) (omega arith))
    ]

-- More bytes than the burst are never given: the call sleeps and tries again for ever.
pub acquire_never :
    (rounds : ℕ) (delay : ℕ → ℕ) (bytes now : ℕ) (s : Limiter)
    → 0 < s.bytes_per_second
    → s.burst_size < bytes
    → acquire rounds delay bytes now s ≡ waiting
acquire_never zero delay bytes now s some_rate over = unfold acquire in refl
acquire_never (suc rounds) delay bytes now s some_rate over =
    elim (acquire-suc rounds delay bytes now s some_rate) [
      | inl (given, _) ↦ absurd (refused_over bytes now s over given)
      | inr (_, r) ↦
          let (rate, burst) = try_acquire-rate bytes now s in
          r
          ∙ acquire_never rounds (λ i. delay (suc i)) bytes
              (now + (wait_time bytes (try_acquire bytes now s).1 * millisecond + delay 0))
              (try_acquire bytes now s).1 (omega arith) (omega arith)
    ]
