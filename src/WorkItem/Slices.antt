-- ===== src/WorkItem/Slices.antt =====
-- How an event changes a service's slice: `_already_recorded` and the `_apply_…` functions of
-- apps/backend/cfactory/store.py.
use cfactory.Prelude.{
  ℕ, ◌-◌, ◌/◌, Bool, false, ◌&&◌, Option, none, some, List, [], ◌∷◌, ◌++◌, ltb, if◌then◌else◌, Text,
  codes, text_eq, option_eq, truthy, or_else, is_some, any, length, drop,
}
use cfactory.Prelude.Dicts.{Dict, dict_get, dict_set}
use cfactory.Status.{is_terminal}
use cfactory.WorkItem.Usage.{Worker, Bucket, TokenUsage, rollup_by}
use cfactory.WorkItem.{
  Service, same_service, ProgressPoint, CompletionEvent, ServiceState, blank, or_blank,
}

-- `_is_worker_event`
unfoldable pub is_worker_event : CompletionEvent → Bool
is_worker_event e = option_eq e.phase (some (codes "worker")) && is_some e.worker

-- `_is_worker_progress_event`
unfoldable pub is_worker_progress_event : CompletionEvent → Bool
is_worker_progress_event e = option_eq e.phase (some (codes "worker_progress")) && is_some e.worker

-- `(e.get("worker") or {}).get("worker_id") == wid`
abbrev pub has_worker : Text → Option Worker → Bool
has_worker wid none = false
has_worker wid (some w) = text_eq w.worker_id wid

-- An earlier event of the same service about the same worker.
unfoldable pub same_worker : Service → Option Worker → CompletionEvent → Bool
same_worker service none e = false
same_worker service (some w) e = same_service e.service service && has_worker w.worker_id e.worker

unfoldable pub already_recorded : List CompletionEvent → CompletionEvent → Bool
unfolding is_worker_event is_worker_progress_event same_worker
already_recorded timeline event =
    if is_worker_progress_event event
    then false
    else if truthy event.id
    then any (λ e. option_eq e.id event.id) timeline
    else if is_worker_event event
    then any (same_worker event.service event.worker) timeline
    else false

abbrev pub progress_series_cap : ℕ
progress_series_cap = 120

-- `_coerce_ts_ms`
abbrev pub coerce_ts_ms : CompletionEvent → ℕ
coerce_ts_ms event = event.updated_at / 1000

-- `series[-_PROGRESS_SERIES_CAP:]` of a series that is longer
unfoldable pub cap_series : List ProgressPoint → List ProgressPoint
cap_series series =
    if ltb progress_series_cap (length series)
    then drop (length series - progress_series_cap) series
    else series

abbrev pub or_no_points : Option (List ProgressPoint) → List ProgressPoint
or_no_points none = []
or_no_points (some series) = series

-- `slice_dict.setdefault("task_id", …)`: every slice but the empty dict has the key
abbrev pub task_id_or : Option ServiceState → Text → Option Text
task_id_or none task_id = some task_id
task_id_or (some prev) task_id = prev.task_id

unfoldable pub progress_point : CompletionEvent → Worker → ProgressPoint
progress_point event w = record {
  ts = coerce_ts_ms event;
  total_tokens = w.total_tokens;
  cost_usd = w.cost_usd;
  elapsed_ms = w.elapsed_ms;
}

-- `_apply_worker_progress`, for an event whose worker is `w`
unfoldable pub apply_worker_progress : Option ServiceState → CompletionEvent → Worker → ServiceState
unfolding cap_series progress_point
apply_worker_progress column event w =
    let prev = or_blank column in
    let series = or_no_points (dict_get prev.worker_progress w.worker_id) in
    record prev {
      task_id = task_id_or column event.task_id;
      worker_progress =
          dict_set prev.worker_progress w.worker_id
            (cap_series (series ++ progress_point event w ∷ []));
    }

-- `_apply_worker`, for an event whose worker is `w`
unfoldable pub apply_worker : Option ServiceState → CompletionEvent → Worker → ServiceState
apply_worker column event w =
    let prev = or_blank column in
    let workers = dict_set prev.workers w.worker_id w in
    record prev {
      task_id = or_else prev.task_id (some event.task_id);
      workers = workers;
      by_provider = rollup_by (λ x. x.provider) workers;
      by_model = rollup_by (λ x. x.model) workers;
    }

set_workers : Dict Worker → List Worker → Dict Worker
set_workers workers [] = workers
set_workers workers (w ∷ ws) = set_workers (dict_set workers w.worker_id w) ws

-- The workers that a terminal event's usage brings
unfoldable pub merge_workers : Dict Worker → Option TokenUsage → Dict Worker
unfolding set_workers
merge_workers workers none = workers
merge_workers workers (some u) = elim u.workers [
  | none ↦ workers
  | some ws ↦ set_workers workers ws
]

-- The event's own breakdown where it has one that is not empty
abbrev own_rollup : Option (Dict Bucket) → Dict Bucket → Dict Bucket
own_rollup none derived = derived
own_rollup (some []) derived = derived
own_rollup (some (b ∷ bs)) derived = b ∷ bs

abbrev breakdown :
    (TokenUsage → Option (Dict Bucket)) → Option TokenUsage → Dict Bucket → Dict Bucket
breakdown field none derived = derived
breakdown field (some u) derived = own_rollup (field u) derived

-- `usage` is last-known-good
abbrev pub or_usage : Option TokenUsage → Option TokenUsage → Option TokenUsage
or_usage none kept = kept
or_usage (some u) kept = some u

-- `_apply_terminal_or_scalar`
unfoldable pub apply_terminal_or_scalar : Option ServiceState → CompletionEvent → ServiceState
unfolding merge_workers
apply_terminal_or_scalar column event =
    let prev = or_blank column in
    let workers = merge_workers prev.workers event.usage in
    record blank {
      task_id = some event.task_id;
      status = some event.status;
      phase = event.phase;
      usage = or_usage event.usage prev.usage;
      workers = workers;
      by_provider =
          breakdown (λ u. u.by_provider) event.usage (rollup_by (λ x. x.provider) workers);
      by_model = breakdown (λ u. u.by_model) event.usage (rollup_by (λ x. x.model) workers);
      worker_progress = if is_terminal (some event.status) then [] else prev.worker_progress;
    }

-- `_attach_access_verification`: a block that is present replaces the slice's.
unfoldable pub attach_annotations : ServiceState → CompletionEvent → ServiceState
attach_annotations state event = record state {
  extra = λ a. if truthy (event.annotations a) then event.annotations a else state.extra a;
}
