-- ===== src/WorkItem/Usage.antt =====
-- Token usage and its roll-ups: apps/backend/cfactory/usage.py, `rollup_by` of store.py, and the
-- usage classes of models.py. Costs are counted in a smallest unit.
use native.Mathlib.Decide.{ℕ_discrete}
use cfactory.Prelude.{
  ℕ, ◌+◌, Bool, Option, none, some, List, [], ◌∷◌, Text, codes, truthy, is_some, ◌&&◌, not,
  if◌then◌else◌,
}
use cfactory.Prelude.Dicts.{Dict, dict_get, dict_set, dict_values}

-- `WorkerUsage`
pub record Worker : Type 0 where
  pub worker_id : Text
  pub subtask_id : Option Text
  pub agent_phase : Option Text
  pub provider : Option Text
  pub model : Option Text
  pub input_tokens : ℕ
  pub output_tokens : ℕ
  pub total_tokens : ℕ
  pub cost_usd : ℕ
  pub duration_ms : ℕ
  pub billing_mode : Option Text
  pub elapsed_ms : ℕ

-- A bucket of a roll-up: `ROLLUP_KEYS`, the count of workers, and what `rollup_by` adds.
pub record Bucket : Type 0 where
  pub input_tokens : ℕ
  pub output_tokens : ℕ
  pub total_tokens : ℕ
  pub cost_usd : ℕ
  pub workers : ℕ
  pub duration_ms : ℕ
  pub billing_mode : Option Text

-- `BudgetInfo`
pub record BudgetInfo : Type 0 where
  pub limit_usd : ℕ
  pub spent_usd : ℕ
  pub exceeded : Bool

-- `TokenUsage`
pub record TokenUsage : Type 0 where
  pub input_tokens : ℕ
  pub output_tokens : ℕ
  pub total_tokens : ℕ
  pub cost_usd : ℕ
  pub model : Option Text
  pub workers : Option (List Worker)
  pub by_provider : Option (Dict Bucket)
  pub by_model : Option (Dict Bucket)
  pub budget : Option BudgetInfo

pub TokenUsage-discrete : Discrete TokenUsage
TokenUsage-discrete = hlevel ℕ_discrete

-- `empty_bucket`
unfoldable pub empty_bucket : Bucket
empty_bucket = record {
  input_tokens = 0;
  output_tokens = 0;
  total_tokens = 0;
  cost_usd = 0;
  workers = 0;
  duration_ms = 0;
  billing_mode = none;
}

-- `add_usage(b, worker, count_worker=True)`
unfoldable pub add_worker_usage : Bucket → Worker → Bucket
add_worker_usage b w = record b {
  input_tokens = b.input_tokens + w.input_tokens;
  output_tokens = b.output_tokens + w.output_tokens;
  total_tokens = b.total_tokens + w.total_tokens;
  cost_usd = b.cost_usd + w.cost_usd;
  workers = b.workers + 1;
}

-- `add_usage(b, rollup)` at its default: a roll-up brings its own count of workers.
unfoldable pub add_rollup_usage : Bucket → Option Bucket → Bucket
add_rollup_usage b none = b
add_rollup_usage b (some r) = record b {
  input_tokens = b.input_tokens + r.input_tokens;
  output_tokens = b.output_tokens + r.output_tokens;
  total_tokens = b.total_tokens + r.total_tokens;
  cost_usd = b.cost_usd + r.cost_usd;
  workers = b.workers + r.workers;
}

abbrev pub or_bucket : Option Bucket → Bucket
or_bucket none = empty_bucket
or_bucket (some b) = b

-- `wd.get(dim) or "unknown"`
abbrev pub dim_key : Option Text → Text
dim_key none = codes "unknown"
dim_key (some []) = codes "unknown"
dim_key (some (c ∷ s)) = c ∷ s

-- The body of the loop of `rollup_by`
unfoldable pub add_to_rollup : (Worker → Option Text) → Dict Bucket → Worker → Dict Bucket
unfolding empty_bucket add_worker_usage
add_to_rollup dim out w =
    let key = dim_key (dim w) in
    let b = add_worker_usage (or_bucket (dict_get out key)) w in
    dict_set out key (record b {
      duration_ms = b.duration_ms + w.duration_ms;
      billing_mode =
          if truthy w.billing_mode && not (is_some b.billing_mode)
          then w.billing_mode
          else b.billing_mode;
    })

unfoldable pub rollup_list : (Worker → Option Text) → Dict Bucket → List Worker → Dict Bucket
unfolding add_to_rollup
rollup_list dim out [] = out
rollup_list dim out (w ∷ ws) = rollup_list dim (add_to_rollup dim out w) ws

-- `rollup_by`
unfoldable pub rollup_by : (Worker → Option Text) → Dict Worker → Dict Bucket
unfolding rollup_list dict_values
rollup_by dim workers = rollup_list dim [] (dict_values workers)
