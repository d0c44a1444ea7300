-- ===== src/WorkItem/Series.antt =====
-- The rolling series of apps/backend/cfactory/store.py: `_apply_worker_progress`, and what the other
-- writes do to `worker_progress`.
use cfactory.Prelude.{
  ℕ, ◌-◌, ◌≤◌, ◌≡◌, refl, inl, inr, true, false, Option, none, some, List, [], ◌∷◌, ◌++◌, Text, All,
  Bool-cases, ltb, arith, length, length-drop, text_eq,
}
use cfactory.Prelude.Dicts.{Dict, dict_get, dict_set}
use cfactory.Status.{is_terminal}
use cfactory.WorkItem.{
  Service, same_service, ProgressPoint, CompletionEvent, ServiceState, WorkItemRow, or_blank,
}
use cfactory.WorkItem.Usage.{Worker}
use cfactory.WorkItem.Slices.{
  is_worker_event, is_worker_progress_event, progress_series_cap, cap_series, progress_point,
  or_no_points, apply_worker_progress, apply_worker, apply_terminal_or_scalar, attach_annotations,
}
use cfactory.WorkItem.Ingest.{event_slice, thread_row}
use cfactory.WorkItem.Snapshots.{Snapshot, carry_blind, poll_row, or_kept}
use cfactory.WorkItem.Heartbeat.{
  Beaten, with_point, timeline_of_beat, slice_of_event, beat-Beaten, series_of_own,
}
use cfactory.WorkItem.Kept.{slice, slices_of_event, slices_of_poll}

-- Every worker's series is within the cap.
abbrev pub IsCapped : Dict (List ProgressPoint) → Type 0
IsCapped = All (λ (entry : Text × List ProgressPoint). length entry.1 ≤ progress_series_cap)

cap_series_short : (series : List ProgressPoint) → length (cap_series series) ≤ progress_series_cap
unfolding cap_series
cap_series_short series = elim (Bool-cases (ltb progress_series_cap (length series))) [
  | inl long ↦ rw long (rw (length-drop (length series - progress_series_cap) series) (omega arith))
  | inr short ↦ rw short (ground (arith, short))
]

IsCapped-set :
    (d : Dict (List ProgressPoint)) (key : Text) (series : List ProgressPoint)
    → IsCapped d
    → length series ≤ progress_series_cap
    → IsCapped (dict_set d key series)
unfolding dict_set
IsCapped-set [] key series h short = (short, tt)
IsCapped-set ((k, w) ∷ d) key series h short = elim (Bool-cases (text_eq k key)) [
  | inl here ↦ rw here (short, h.1)
  | inr there ↦ rw there (h.0, IsCapped-set d key series h.1 short)
]

abbrev KeepsCapped : ServiceState → ServiceState → Type 0
KeepsCapped before after = IsCapped before.worker_progress → IsCapped after.worker_progress

scalar-KeepsCapped :
    (event : CompletionEvent) (prev : Option ServiceState)
    → KeepsCapped (or_blank prev) (apply_terminal_or_scalar prev event)
unfolding apply_terminal_or_scalar
scalar-KeepsCapped event prev h = elim (Bool-cases (is_terminal (some event.status))) [
  | inl terminal ↦ rw terminal tt
  | inr running ↦ rw running h
]

event_slice-KeepsCapped :
    (event : CompletionEvent) (prev : Option ServiceState) (w : Option Worker)
    → KeepsCapped (or_blank prev) (event_slice prev event w)
unfolding event_slice attach_annotations apply_worker
event_slice-KeepsCapped event prev none h = scalar-KeepsCapped event prev h
event_slice-KeepsCapped event prev (some w) h = elim (Bool-cases (is_worker_event event)) [
  | inl sub_event ↦ rw sub_event h
  | inr scalar ↦ rw scalar (scalar-KeepsCapped event prev h)
]

or_kept-IsCapped :
    (a b : Dict (List ProgressPoint)) → IsCapped a → IsCapped b → IsCapped (or_kept a b)
or_kept-IsCapped [] b ha hb = hb
or_kept-IsCapped (x ∷ a) b ha hb = ha

-- No series outgrows the cap of 120 points: if every series of every slice of a row is within it, so it
-- is after an event of any kind, and after a poll that brings no series beyond it.
pub IsCapped-writes :
    (now : ℕ) (event : CompletionEvent) (s : Snapshot) (t : Service) (row : WorkItemRow)
    → IsCapped s.state.worker_progress
    → IsCapped (slice t row).worker_progress
    → IsCapped (slice t (thread_row now event event.worker row)).worker_progress
      × IsCapped (slice t (poll_row now s row)).worker_progress
unfolding apply_worker_progress carry_blind
IsCapped-writes now event s t row brought h = (
  slices_of_event KeepsCapped (λ state k. k) now event
      (λ prev w q beat k. IsCapped-set (or_blank prev).worker_progress w.worker_id _ k (
        cap_series_short (
          or_no_points (dict_get (or_blank prev).worker_progress w.worker_id)
          ++ progress_point event w ∷ [])))
      (λ prev w other q. event_slice-KeepsCapped event prev w) t row h,
  slices_of_poll KeepsCapped (λ state k. k) now s
      (λ prev. or_kept-IsCapped s.state.worker_progress prev.worker_progress brought) t row h,
)

pub heartbeat_keeps :
    (now : ℕ) (event : CompletionEvent) (t : Service) (row : WorkItemRow)
    → is_worker_progress_event event ≡ true
    → ((thread_row now event event.worker row).timeline ≡ row.timeline)
      × (same_service event.service t ≡ false
          → slice t (thread_row now event event.worker row) ≡ slice t row)
      × Beaten event (slice t row) (slice t (thread_row now event event.worker row))
      × ((w : Worker)
          → event.worker ≡ some w
          → dict_get
              (slice event.service (thread_row now event event.worker row)).worker_progress
              w.worker_id
            ≡ with_point event w (slice event.service row).worker_progress)
heartbeat_keeps now event t row beats = (
  timeline_of_beat now event row event.worker refl beats,
  slice_of_event now event t row event.worker,
  slices_of_event (Beaten event) (unbeaten event) now event
      (λ prev w q beat. beat-Beaten event prev w q) (λ prev w other q. absurd cc) t row,
  λ w q. series_of_own now event row event.worker w beats q,
)
  where
    unbeaten : (event : CompletionEvent) (state : ServiceState) → Beaten event state state
    unbeaten event state = record { rest = refl; task = inl refl; series = λ id. inl refl }
