-- ===== src/RateLimiter.antt =====
-- RateLimiter (include/common/rate_limiter.h, src/common/rate_limiter.cpp): a token bucket. The clock
-- counts nanoseconds; the `double` tokens are whole numbers here, of billionths of a byte, in which
-- elapsed nanoseconds times bytes per second is exact. What rounding does to the doubles, and a
-- sleep of more milliseconds than an int64_t holds, are left out.
pub mod Bucket
pub mod Acquire
pub mod Threads
pub mod Race
use dropbox_lite.Prelude.{
  ℕ, zero, suc, ◌+◌, ◌-◌, ◌*◌, ◌/◌, ◌^◌, Bool, true, false, leb, ltb, ◌==◌, if◌then◌else◌,
}
use dropbox_lite.Prelude.Words.{sub64}

-- Nanoseconds, and the tokens of one byte.
abbrev pub second : ℕ
second = 1000000000

abbrev pub millisecond : ℕ
millisecond = 1000000

pub record Limiter : Type 0 where
  pub bytes_per_second : ℕ
  pub burst_size : ℕ
  pub tokens : ℕ
  pub last_refill : ℕ

unfoldable pub new : ℕ → ℕ → ℕ → Limiter
new bytes_per_second burst_size now =
    let burst = if ltb 0 burst_size then burst_size else bytes_per_second in
    record {
      bytes_per_second = bytes_per_second;
      burst_size = burst;
      tokens = burst * second;
      last_refill = now;
    }

unfoldable pub refill : ℕ → Limiter → Limiter
refill now s =
    let filled = s.tokens + (now - s.last_refill) * s.bytes_per_second in
    record s {
      tokens = if ltb (s.burst_size * second) filled then s.burst_size * second else filled;
      last_refill = now;
    }

unfoldable pub try_acquire : ℕ → ℕ → Limiter → Bool × Limiter
try_acquire bytes now s =
    let s' = refill now s in
    if leb (bytes * second) s'.tokens
    then (true, record s' { tokens = s'.tokens - bytes * second })
    else (false, s')

unfoldable pub set_rate : ℕ → Limiter → Limiter
set_rate bytes_per_second s = record s {
  bytes_per_second = bytes_per_second;
  burst_size = bytes_per_second;
}

unfoldable pub get_rate : Limiter → ℕ
get_rate s = s.bytes_per_second

unfoldable pub available : Limiter → ℕ
available s = s.tokens / second

-- `wait_time` in milliseconds, at least 1.
unfoldable pub wait_time : ℕ → Limiter → ℕ
wait_time bytes s =
    let ms = sub64 bytes (available s) * 1000 / s.bytes_per_second in if ltb ms 1 then 1 else ms

-- How a call of `acquire` ends: with the bytes, at a time; not within the rounds looked at; or by a
-- division by a rate of 0, whose result no duration holds.
pub data Acquired : Type 0 where
  acquired : Limiter → ℕ → Acquired
  waiting : Acquired
  no_rate : Acquired

-- The loop, on the rounds looked at. `delay` says by how much each sleep is longer than was asked for.
unfoldable pub acquire : ℕ → (ℕ → ℕ) → ℕ → ℕ → Limiter → Acquired
acquire zero delay bytes now s = waiting
acquire (suc rounds) delay bytes now s =
    let (ok, s') = try_acquire bytes now s in
    let rest =
      acquire rounds (λ i. delay (suc i)) bytes (now + (wait_time bytes s' * millisecond + delay 0))
        s' in
    if ok then acquired s' now else if s'.bytes_per_second == 0 then no_rate else rest
