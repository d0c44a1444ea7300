-- ===== src/Rate/Bounds.antt =====
-- What the token bucket of rate_limiter.py grants over time.
use cfactory.Prelude.{
  ℕ, ◌+◌, ◌-◌, ◌*◌, ◌≤◌, ◌≡◌, refl, inl, inr, Bool, true, false, List, [], ◌∷◌, leb, arith,
  Bool-cases,
}
use native.Mathlib.Nat.{add-mul}
use cfactory.Rate.{one_token, TokenBucket, min, refill, take_tokens, try_acquire}

-- A request: the time since the one before it, and the tokens it asks for
abbrev pub Request : Type 0
Request = ℕ × ℕ

abbrev granted : Bool → ℕ → ℕ
granted true n = n
granted false n = 0

-- A run of requests: the bucket afterwards, and the tokens that were handed out
unfoldable pub serve : TokenBucket → List Request → TokenBucket × ℕ
serve b [] = (b, 0)
serve b ((gap, n) ∷ reqs) =
    let (c, given) = try_acquire (b.last_refill + gap) n b in
    let (d, more) = serve c reqs in (d, granted given n + more)

unfoldable pub duration : List Request → ℕ
duration [] = 0
duration ((gap, n) ∷ reqs) = gap + duration reqs

take_tokens_budget :
    (n : ℕ) (b : TokenBucket)
    → (take_tokens n b).0.tokens + granted (take_tokens n b).1 n * one_token ≡ b.tokens
unfolding take_tokens
take_tokens_budget n b = elim (Bool-cases (leb (n * one_token) b.tokens)) [
  | inl enough ↦ rw enough (ground (arith, enough))
  | inr short ↦ rw short (omega arith)
]

take_tokens_rest :
    (n : ℕ) (b : TokenBucket)
    → ((take_tokens n b).0.capacity ≡ b.capacity)
      × ((take_tokens n b).0.refill_rate ≡ b.refill_rate)
      × ((take_tokens n b).0.last_refill ≡ b.last_refill)
unfolding take_tokens
take_tokens_rest n b = elim (Bool-cases (leb (n * one_token) b.tokens)) [
  | inl enough ↦ rw enough (refl, refl, refl)
  | inr short ↦ rw short (refl, refl, refl)
]

min_below : (a b : ℕ) → (min a b ≤ b) × (min a b ≤ a)
min_below a b = (ground arith, ground arith)

after_gap : (start gap : ℕ) → start + gap - start ≡ gap
after_gap start gap = omega arith

refill_gain :
    (gap : ℕ) (b : TokenBucket)
    → (refill (b.last_refill + gap) b).tokens ≤ b.tokens + gap * b.refill_rate
unfolding refill
refill_gain gap b =
    rw (after_gap b.last_refill gap)
      (min_below (b.capacity * one_token) (b.tokens + gap * b.refill_rate)).0

try_acquire_budget :
    (gap n : ℕ) (b : TokenBucket)
    → (try_acquire (b.last_refill + gap) n b).0.tokens
        + granted (try_acquire (b.last_refill + gap) n b).1 n * one_token
      ≤ b.tokens + gap * b.refill_rate
unfolding try_acquire
try_acquire_budget gap n b =
    rw (take_tokens_budget n (refill (b.last_refill + gap) b)) (refill_gain gap b)

pub try_acquire_rate :
    (now n : ℕ) (b : TokenBucket)
    → ((try_acquire now n b).0.capacity ≡ b.capacity)
      × ((try_acquire now n b).0.refill_rate ≡ b.refill_rate)
      × ((try_acquire now n b).0.last_refill ≡ now)
unfolding try_acquire refill
try_acquire_rate now n b = take_tokens_rest n (refill now b)

-- Two stretches of time, one after the other
budget_add :
    (tokens gap later rate mid left more given : ℕ)
    → mid + given * one_token ≤ tokens + gap * rate
    → left + more * one_token ≤ mid + later * rate
    → left + (given + more) * one_token ≤ tokens + (gap + later) * rate
budget_add tokens gap later rate mid left more given spent rest =
    omega (arith, add-mul gap later rate)

-- The limit holds over any time: whatever requests are made and whenever, the tokens handed out, and
-- what is left of them, come to no more than the tokens there were and what the time has refilled.
pub serve_budget :
    (b : TokenBucket) (reqs : List Request)
    → (serve b reqs).0.tokens + (serve b reqs).1 * one_token
      ≤ b.tokens + duration reqs * b.refill_rate
unfolding serve duration
serve_budget b [] = omega arith
serve_budget b ((gap, n) ∷ reqs) =
    let c = (try_acquire (b.last_refill + gap) n b).0 in
    let rest = serve_budget c reqs in
    let spent = try_acquire_budget gap n b in
    let rate : c.refill_rate ≡ b.refill_rate = (try_acquire_rate (b.last_refill + gap) n b).1 in
    budget_add b.tokens gap (duration reqs) b.refill_rate c.tokens _ _
      (granted (try_acquire (b.last_refill + gap) n b).1 n) spent (rw rate at rest)
