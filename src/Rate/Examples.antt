-- ===== src/Rate/Examples.antt =====
-- The theorems on rate_limiter.py at a bucket of two tokens that refills one in a second.
use cfactory.Prelude.{ℕ, zero, suc, ◌+◌, ◌*◌, ◌≤◌, ◌<◌, refl, List, [], ◌∷◌, arith}
use cfactory.Rate.Waiting.{Answers, acquire_returns}
use cfactory.Rate.{one_token, TokenBucket, new_bucket}
use cfactory.Rate.Bounds.{Request, serve, duration, serve_budget}

abbrev burst : List Request
burst = (0, 1) ∷ (0, 1) ∷ (0, 1) ∷ (1500000, 1) ∷ []

serve_budget_example :
    (serve (new_bucket 2 1000 5) burst).0.tokens + (serve (new_bucket 2 1000 5) burst).1 * one_token
    ≤ 2000000000 + duration burst * 1000
unfolding new_bucket
serve_budget_example = serve_budget (new_bucket 2 1000 5) burst

abbrev frozen : TokenBucket
frozen = record { capacity = 1; refill_rate = 0; tokens = 0; last_refill = 0 }

abbrev late_wake : ℕ → ℕ × ℕ → ℕ
late_wake now (part, whole) = now + part + 5

late_wake-sleeps :
    (now part whole : ℕ) → 0 < whole → now * whole + part ≤ late_wake now (part, whole) * whole
late_wake-sleeps now part zero h = absurd (omega (arith, h))
late_wake-sleeps now part (suc whole) h = omega arith

acquire_returns_example : Answers late_wake (λ c. c) 1 2000000 0 4 0 frozen
acquire_returns_example =
    acquire_returns late_wake (λ c. c) late_wake-sleeps (λ c. refl) 1 2000000 0 frozen refl
