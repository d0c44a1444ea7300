-- ===== src/WorkItem/Heartbeat.antt =====
-- What a heartbeat does to the slices of a row: `_apply_worker_progress` of apps/backend/cfactory/store.py,
-- and the early return of `upsert_from_event`.
use cfactory.Prelude.{
  ℕ, ◌≡◌, ◌⊎◌, refl, ap, ◌∙◌, inl, inr, true, false, Option, none, some, List, [], ◌∷◌, ◌++◌, Text,
  Bool-cases, text_eq, text_eq_iff, text_eq_refl,
}
use cfactory.Prelude.Dicts.{Dict, dict_get, dict_set, get-set}
use cfactory.WorkItem.{
  Service, same_service, column, pfactory, aifactory, tfactory, set_column, ProgressPoint,
  CompletionEvent, ServiceState, WorkItemRow, or_blank,
}
use cfactory.WorkItem.Usage.{Worker}
use cfactory.WorkItem.Slices.{
  is_worker_progress_event, cap_series, progress_point, or_no_points, task_id_or,
  apply_worker_progress,
}
use cfactory.WorkItem.Ingest.{thread_row}
use cfactory.WorkItem.Annotations.{slice-written}
use cfactory.WorkItem.Kept.{slice, column-touched, no_worker_no_beat}

-- The rest of a slice that has its task
abbrev pub settled : ServiceState → ServiceState
settled state = record state { task_id = none; worker_progress = [] }

timeline_of_set :
    (s : Service) (state : ServiceState) (row : WorkItemRow)
    → (set_column s state row).timeline ≡ row.timeline
timeline_of_set pfactory state row = refl
timeline_of_set aifactory state row = refl
timeline_of_set tfactory state row = refl

pub timeline_of_beat :
    (now : ℕ) (event : CompletionEvent) (row : WorkItemRow) (w : Option Worker)
    → event.worker ≡ w
    → is_worker_progress_event event ≡ true
    → (thread_row now event w row).timeline ≡ row.timeline
unfolding thread_row
timeline_of_beat now event row none q beats = absurd (contradiction (no_worker_no_beat event q))
  where
    contradiction : is_worker_progress_event event ≡ false → ⊥
    contradiction e = cc
timeline_of_beat now event row (some w) q beats = rw beats (timeline_of_set event.service _ row)

-- The series of a worker with the point of a heartbeat at its end
abbrev pub with_point :
    CompletionEvent → Worker → Dict (List ProgressPoint) → Option (List ProgressPoint)
with_point event w series =
    some (cap_series (or_no_points (dict_get series w.worker_id) ++ progress_point event w ∷ []))

-- What a heartbeat does to a worker's series: it appends its point to that of its own worker.
abbrev pub SeriesAfter :
    CompletionEvent → Text → Dict (List ProgressPoint) → Dict (List ProgressPoint) → Type 0
SeriesAfter event id before after =
    (dict_get after id ≡ dict_get before id)
    ⊎ ((w : Worker) × (event.worker ≡ some w)
        × (w.worker_id ≡ id)
        × (dict_get after id ≡ with_point event w before))

-- A slice before and after a heartbeat
pub record Beaten (event : CompletionEvent) (before after : ServiceState) : Type 0 where
  pub rest : settled before ≡ settled after
  pub task :
      (after.task_id ≡ before.task_id)
      ⊎ ((before.task_id ≡ none) × (after.task_id ≡ some event.task_id))
  pub series : (id : Text) → SeriesAfter event id before.worker_progress after.worker_progress

task_of_beat :
    (prev : Option ServiceState) (task_id : Text)
    → (task_id_or prev task_id ≡ (or_blank prev).task_id)
      ⊎ (((or_blank prev).task_id ≡ none) × (task_id_or prev task_id ≡ some task_id))
task_of_beat none task_id = inr (refl, refl)
task_of_beat (some prev) task_id = inl refl

series_of_beat :
    (event : CompletionEvent) (w : Worker) (before : Dict (List ProgressPoint)) (id : Text)
    → event.worker ≡ some w
    → SeriesAfter event id before (
        dict_set before w.worker_id
          (cap_series (or_no_points (dict_get before w.worker_id) ++ progress_point event w ∷ [])))
series_of_beat event w before id q = elim (Bool-cases (text_eq w.worker_id id)) [
  | inl own ↦
      let same : w.worker_id ≡ id = (text_eq_iff w.worker_id id).0 own in
      inr (w, q, same, get-set before w.worker_id id _ ∙ rw own (rw same refl))
  | inr other ↦ inl (get-set before w.worker_id id _ ∙ rw other refl)
]

pub beat-Beaten :
    (event : CompletionEvent) (prev : Option ServiceState) (w : Worker)
    → event.worker ≡ some w
    → Beaten event (or_blank prev) (apply_worker_progress prev event w)
unfolding apply_worker_progress
beat-Beaten event prev w q = record {
  rest = refl;
  task = task_of_beat prev event.task_id;
  series = λ id. series_of_beat event w (or_blank prev).worker_progress id q;
}

slice_of_set :
    (s t : Service) (state : ServiceState) (row : WorkItemRow)
    → same_service s t ≡ false
    → slice t (set_column s state row) ≡ slice t row
slice_of_set pfactory pfactory state row other = absurd cc
slice_of_set pfactory aifactory state row other = refl
slice_of_set pfactory tfactory state row other = refl
slice_of_set aifactory pfactory state row other = refl
slice_of_set aifactory aifactory state row other = absurd cc
slice_of_set aifactory tfactory state row other = refl
slice_of_set tfactory pfactory state row other = refl
slice_of_set tfactory aifactory state row other = refl
slice_of_set tfactory tfactory state row other = absurd cc

-- An event writes the slice of its own service.
pub slice_of_event :
    (now : ℕ) (event : CompletionEvent) (t : Service) (row : WorkItemRow) (w : Option Worker)
    → same_service event.service t ≡ false
    → slice t (thread_row now event w row) ≡ slice t row
unfolding thread_row
slice_of_event now event t row none other =
    ap or_blank (column-touched t (set_column event.service _ row) _ _ now)
    ∙ slice_of_set event.service t _ row other
slice_of_event now event t row (some w) other = elim (Bool-cases (is_worker_progress_event event)) [
  | inl beats ↦ rw beats (
      ap or_blank (column-touched t (set_column event.service _ row) _ _ now)
      ∙ slice_of_set event.service t _ row other)
  | inr scalar ↦ rw scalar (
      ap or_blank (column-touched t (set_column event.service _ row) _ _ now)
      ∙ slice_of_set event.service t _ row other)
]

-- The series of the heartbeat's own worker
pub series_of_own :
    (now : ℕ) (event : CompletionEvent) (row : WorkItemRow) (o : Option Worker) (w : Worker)
    → is_worker_progress_event event ≡ true
    → o ≡ some w
    → dict_get (slice event.service (thread_row now event o row)).worker_progress w.worker_id
      ≡ with_point event w (slice event.service row).worker_progress
unfolding thread_row apply_worker_progress
series_of_own now event row o w beats q =
    let state = apply_worker_progress (column event.service row) event w in
    let written : slice event.service (thread_row now event (some w) row) ≡ state = rw beats (
      ap or_blank (column-touched event.service (set_column event.service state row) _ _ now)
      ∙ slice-written event.service state row) in
    rw q (
      ap (λ x. dict_get x.worker_progress w.worker_id) written
      ∙ (get-set (slice event.service row).worker_progress w.worker_id w.worker_id _
          ∙ rw (text_eq_refl w.worker_id) refl))
