-- ===== src/WorkItem/Totals.antt =====
-- The roll-ups of `rollup_by` in apps/backend/cfactory/store.py against the workers they are made of.
use cfactory.Prelude.{
  ℕ, ◌+◌, ◌≡◌, refl, ◌∙◌, Option, List, [], ◌∷◌, Text, arith, Bool-cases, text_eq, inl, inr, length,
}
use cfactory.Prelude.Dicts.{Dict, dict_get, dict_set, dict_values}
use cfactory.WorkItem.Usage.{
  Worker, Bucket, empty_bucket, add_worker_usage, or_bucket, dim_key, add_to_rollup, rollup_list,
  rollup_by,
}

-- `sum(measure(b) for b in d.values())`
unfoldable pub total {ℓ} : {V : Type ℓ} → (V → ℕ) → Dict V → ℕ
total measure [] = 0
total measure ((k, v) ∷ d) = measure v + total measure d

unfoldable pub worker_total : (Worker → ℕ) → List Worker → ℕ
worker_total measure [] = 0
worker_total measure (w ∷ ws) = measure w + worker_total measure ws

-- A measure of buckets and one of workers that a step of the roll-up keeps in line
record IsAdditive (of_bucket : Bucket → ℕ) (of_worker : Worker → ℕ) : Type 0 where
  of_empty : of_bucket empty_bucket ≡ 0
  of_sum :
      (b : Bucket) (w : Worker) (duration : ℕ) (mode : Option Text)
      → of_bucket (record (add_worker_usage b w) { duration_ms = duration; billing_mode = mode })
        ≡ of_bucket b + of_worker w

module _ (of_bucket : Bucket → ℕ) (of_worker : Worker → ℕ)
    (additive : IsAdditive of_bucket of_worker) (dim : Worker → Option Text) where
  of_get : Option Bucket → ℕ
  of_get o = of_bucket (or_bucket o)

  -- Setting a key trades the bucket that was there for the new one.
  total-set :
      (d : Dict Bucket) (key : Text) (b : Bucket)
      → total of_bucket (dict_set d key b) + of_get (dict_get d key)
        ≡ total of_bucket d + of_bucket b
  unfolding total dict_set dict_get of_get
  total-set [] key b = rw additive.of_empty (omega arith)
  total-set ((k, v) ∷ d) key b = elim (Bool-cases (text_eq k key)) [
    | inl here ↦ rw here (unfold total in omega arith)
    | inr there ↦ rw there (unfold total of_get in omega (arith, total-set d key b))
  ]

  total-add :
      (out : Dict Bucket) (w : Worker)
      → total of_bucket (add_to_rollup dim out w) ≡ total of_bucket out + of_worker w
  unfolding add_to_rollup of_get
  total-add out w =
      let old = or_bucket (dict_get out (dim_key (dim w))) in
      omega (arith, total-set out (dim_key (dim w)) _, additive.of_sum old w _ _)

  total-rollup_list :
      (out : Dict Bucket) (ws : List Worker)
      → total of_bucket (rollup_list dim out ws) ≡ total of_bucket out + worker_total of_worker ws
  unfolding rollup_list worker_total
  total-rollup_list out [] = omega arith
  total-rollup_list out (w ∷ ws) =
      omega (arith, total-rollup_list (add_to_rollup dim out w) ws, total-add out w)

  total-rollup_by :
      (workers : Dict Worker)
      → total of_bucket (rollup_by dim workers) ≡ worker_total of_worker (dict_values workers)
  unfolding rollup_by total
  total-rollup_by workers = omega (arith, total-rollup_list [] (dict_values workers))

counted : (ws : List Worker) → worker_total (λ w. 1) ws ≡ length ws
unfolding worker_total
counted [] = refl
counted (w ∷ ws) = omega (arith, counted ws)

-- Whatever the workers are grouped by, the groups add up to the workers: the buckets' tokens, costs,
-- input and output are those of the workers, and each worker is counted in one bucket.
pub rollup_by_totals :
    (dim : Worker → Option Text) (workers : Dict Worker)
    → (total (λ b. b.input_tokens) (rollup_by dim workers)
        ≡ worker_total (λ w. w.input_tokens) (dict_values workers))
      × (total (λ b. b.output_tokens) (rollup_by dim workers)
          ≡ worker_total (λ w. w.output_tokens) (dict_values workers))
      × (total (λ b. b.total_tokens) (rollup_by dim workers)
          ≡ worker_total (λ w. w.total_tokens) (dict_values workers))
      × (total (λ b. b.cost_usd) (rollup_by dim workers)
          ≡ worker_total (λ w. w.cost_usd) (dict_values workers))
      × (total (λ b. b.workers) (rollup_by dim workers) ≡ length (dict_values workers))
unfolding add_worker_usage empty_bucket
rollup_by_totals dim workers = (
  total-rollup_by _ _ record { of_empty = refl; of_sum = λ b w n m. refl } dim workers,
  total-rollup_by _ _ record { of_empty = refl; of_sum = λ b w n m. refl } dim workers,
  total-rollup_by _ _ record { of_empty = refl; of_sum = λ b w n m. refl } dim workers,
  total-rollup_by _ _ record { of_empty = refl; of_sum = λ b w n m. refl } dim workers,
  total-rollup_by _ _ record { of_empty = refl; of_sum = λ b w n m. refl } dim workers
      ∙ counted (dict_values workers),
)
