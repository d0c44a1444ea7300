-- ===== src/Rate.antt =====
-- The token bucket of apps/backend/runners/github/rate_limiter.py, in whole numbers: a token is a
-- thousand million parts, times are in microseconds, and a rate is the parts added in one of them.
-- A negative rate, which the source treats as zero, does not occur here.
mod Bounds
mod Waiting
mod Examples
use cfactory.Prelude.{
  ℕ, ◌+◌, ◌-◌, ◌*◌, ◌/◌, Bool, true, false, Option, none, some, ltb, leb, ◌==◌, if◌then◌else◌,
}

abbrev pub one_token : ℕ
one_token = 1000000000

-- `TokenBucket`
pub record TokenBucket : Type 0 where
  pub capacity : ℕ
  pub refill_rate : ℕ
  pub tokens : ℕ
  pub last_refill : ℕ

-- `__post_init__`
unfoldable pub new_bucket : ℕ → ℕ → ℕ → TokenBucket
new_bucket capacity refill_rate now = record {
  capacity = capacity;
  refill_rate = refill_rate;
  tokens = capacity * one_token;
  last_refill = now;
}

abbrev pub min : ℕ → ℕ → ℕ
min a b = if ltb b a then b else a

-- `_refill`
unfoldable pub refill : ℕ → TokenBucket → TokenBucket
refill now b = record b {
  tokens = min (b.capacity * one_token) (b.tokens + (now - b.last_refill) * b.refill_rate);
  last_refill = now;
}

-- The part of `try_acquire` behind the refill
unfoldable pub take_tokens : ℕ → TokenBucket → TokenBucket × Bool
take_tokens n b =
    if leb (n * one_token) b.tokens
    then (record b { tokens = b.tokens - n * one_token }, true)
    else (b, false)

-- `try_acquire`
unfoldable pub try_acquire : ℕ → ℕ → TokenBucket → TokenBucket × Bool
unfolding refill take_tokens
try_acquire now n b = take_tokens n (refill now b)

-- `available`
unfoldable pub available : ℕ → TokenBucket → TokenBucket × ℕ
unfolding refill
available now b = (refill now b, (refill now b).tokens / one_token)

-- `time_until_available`: the quotient that it returns, as dividend and divisor, and `none` for infinity
unfoldable pub time_until_available : ℕ → ℕ → TokenBucket → TokenBucket × Option (ℕ × ℕ)
unfolding refill
time_until_available now n b =
    let c = refill now b in
    (
      c,
      (if leb (n * one_token) c.tokens
          then some (0, 1)
          else if c.refill_rate == 0
          then none
          else some (n * one_token - c.tokens, c.refill_rate)),
    )
