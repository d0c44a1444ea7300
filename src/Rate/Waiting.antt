-- ===== src/Rate/Waiting.antt =====
-- The waiting loop `acquire` of apps/backend/runners/github/rate_limiter.py. Other tasks run while it
-- sleeps: what they do to the bucket, and when `asyncio.sleep` ends, is an argument. A delay is a quotient.
use cfactory.Prelude.{
  ℕ, zero, suc, ◌+◌, ◌-◌, ◌*◌, ◌≤◌, ◌<◌, ◌≡◌, refl, inl, inr, Bool, true, false, Option, none, some,
  ltb, leb, ◌==◌, ◌/◌, ◌∙◌, if◌then◌else◌, arith, Bool-cases,
}
use cfactory.Rate.Bounds.{try_acquire_rate}
use cfactory.Rate.{one_token, TokenBucket, try_acquire}

-- `wait_time`: the quotient that the loop sleeps for, as dividend and divisor, a second at most
unfoldable pub wait_time : ℕ → TokenBucket → ℕ × ℕ
wait_time n b =
    if b.refill_rate == 0
    then (1000000, 1)
    else (if ltb (1000000 * b.refill_rate) (n * one_token - b.tokens)
        then (1000000, 1)
        else (n * one_token - b.tokens, b.refill_rate))

unfoldable pub timed_out : Option ℕ → ℕ → Bool
timed_out none elapsed = false
timed_out (some timeout) elapsed = leb timeout elapsed

-- The answer, the time and the bucket
pub record Answer : Type 0 where
  pub granted : Bool
  pub time : ℕ
  pub bucket : TokenBucket

module _ (sleep : ℕ → ℕ × ℕ → ℕ) (others : TokenBucket → TokenBucket) (n : ℕ) (timeout : Option ℕ)
    (start : ℕ) where
  -- `acquire`, on fuel: `none` where the loop goes on
  unfoldable pub acquire : ℕ → ℕ → TokenBucket → Option Answer
  unfolding try_acquire wait_time timed_out
  acquire zero now b = none
  acquire (suc fuel) now b =
      let (c, granted) = try_acquire now n b in
      let rest = acquire fuel (sleep now (wait_time n c)) (others c) in
      if granted
      then some (record { granted = true; time = now; bucket = c })
      else (if timed_out timeout (now - start)
          then some (record { granted = false; time = now; bucket = c })
          else rest)

-- A bucket that never refills is asked again after a second.
wait_time_never : (n : ℕ) (b : TokenBucket) → b.refill_rate ≡ 0 → wait_time n b ≡ (1000000, 1)
unfolding wait_time
wait_time_never n b never = rw never refl

module _ (sleep : ℕ → ℕ × ℕ → ℕ) (others : TokenBucket → TokenBucket) (n timeout start : ℕ) where
  abbrev pub Answers : ℕ → ℕ → TokenBucket → Type 0
  Answers fuel now b =
      (r : Answer) × (acquire sleep others n (some timeout) start fuel now b ≡ some r)
      × (r.granted ≡ false → start + timeout ≤ r.time)

module _ (sleep : ℕ → ℕ × ℕ → ℕ) (others : TokenBucket → TokenBucket)
    (sleeps : (now part whole : ℕ)
      → 0 < whole
      → now * whole + part ≤ sleep now (part, whole) * whole)
    (keeps_rate : (b : TokenBucket) → (others b).refill_rate ≡ b.refill_rate)
    (n timeout start : ℕ) where
  slept :
      (fuel now wake : ℕ)
      → start ≤ now
      → start + timeout + 1000000 ≤ now + suc fuel * 1000000
      → leb timeout (now - start) ≡ false
      → now * 1 + 1000000 ≤ wake * 1
      → (0 < fuel) × (start ≤ wake) × (start + timeout + 1000000 ≤ wake + fuel * 1000000)
  slept fuel now wake begun enough early later = (
    ground (arith, early, enough, begun),
    omega (arith, begun, later),
    omega (arith, enough, later),
  )

  acquire_from :
      (fuel now : ℕ) (b : TokenBucket)
      → b.refill_rate ≡ 0
      → 0 < fuel
      → start ≤ now
      → start + timeout + 1000000 ≤ now + fuel * 1000000
      → Answers sleep others n timeout start fuel now b
  unfolding acquire timed_out
  acquire_from zero now b never some_fuel begun enough = absurd (omega (arith, some_fuel))
  acquire_from (suc fuel) now b never some_fuel begun enough =
      elim (Bool-cases (try_acquire now n b).1) [
        | inl got ↦ rw got (_, refl, λ e. absurd cc)
        | inr failed ↦ elim (Bool-cases (leb timeout (now - start))) [
          | inl over ↦ rw failed (rw over (_, refl, λ e. ground (arith, over, begun)))
          | inr early ↦
              let c = (try_acquire now n b).0 in
              let still : c.refill_rate ≡ 0 = (try_acquire_rate now n b).1 ∙ never in
              let (more, later, rest) =
                slept fuel now (sleep now (1000000, 1)) begun enough early
                  (sleeps now 1000000 1 (omega arith)) in
              rw failed (
                rw early (
                  rw (wait_time_never n c still) (
                    acquire_from fuel (sleep now (1000000, 1)) (others c) (keeps_rate c ∙ still)
                      more later rest)))
        ]
      ]

  -- A hard cap does not hang: for a bucket that never refills, and with a timeout, `acquire` returns an
  -- answer after no more tries than the timeout has whole seconds, and two, however late a sleep ends and
  -- whatever other tasks do to the tokens; and it answers no only once the timeout has passed. The sleep
  -- does not end before its delay is over, and the others leave the rate of the bucket.
  pub acquire_returns :
      (b : TokenBucket)
      → b.refill_rate ≡ 0
      → Answers sleep others n timeout start (timeout / 1000000 + 2) start b
  acquire_returns b never =
      acquire_from (timeout / 1000000 + 2) start b never (omega arith) (omega arith) (omega arith)
