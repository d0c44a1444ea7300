-- ===== src/WorkItem/Kept.antt =====
-- What the writes of apps/backend/cfactory/store.py keep of a service's slice: usage, annotations,
-- and the fields that a heartbeat does not touch.
use cfactory.Prelude.{
  ℕ, ◌≡◌, refl, inl, inr, true, false, Option, none, some, List, Text, Bool-cases, arith,
}
use cfactory.WorkItem.{
  Service, pfactory, aifactory, tfactory, CompletionEvent, ServiceState, WorkItemRow, set_column,
  column, or_blank,
}
use cfactory.WorkItem.Usage.{Worker}
use cfactory.WorkItem.Slices.{is_worker_progress_event, apply_worker_progress}
use cfactory.WorkItem.Ingest.{event_slice, thread_row}
use cfactory.WorkItem.Snapshots.{Snapshot, carry_blind, leaves_row, write_snapshot, poll_row}

abbrev pub slice : Service → WorkItemRow → ServiceState
slice s row = or_blank (column s row)

-- The clock, the timeline and the title are no part of a slice.
pub column-touched :
    (t : Service) (row : WorkItemRow) (title : Option Text) (timeline : List CompletionEvent)
    (now : ℕ)
    → column t (record row { title = title; timeline = timeline; updated_at = now }) ≡ column t row
column-touched pfactory row title timeline now = refl
column-touched aifactory row title timeline now = refl
column-touched tfactory row title timeline now = refl

pub no_worker_no_beat :
    (event : CompletionEvent) → event.worker ≡ none → is_worker_progress_event event ≡ false
unfolding is_worker_progress_event
no_worker_no_beat event q = ground (arith, q)

-- A relation of a slice to the one that replaces it
module _ {κ} (R : ServiceState → ServiceState → Type κ)
    (same : (state : ServiceState) → R state state) where
  slices_of_set :
      (s t : Service) (state : ServiceState) (row : WorkItemRow)
      → R (slice s row) state
      → R (slice t row) (slice t (set_column s state row))
  slices_of_set pfactory pfactory state row h = h
  slices_of_set pfactory aifactory state row h = same _
  slices_of_set pfactory tfactory state row h = same _
  slices_of_set aifactory pfactory state row h = same _
  slices_of_set aifactory aifactory state row h = h
  slices_of_set aifactory tfactory state row h = same _
  slices_of_set tfactory pfactory state row h = same _
  slices_of_set tfactory aifactory state row h = same _
  slices_of_set tfactory tfactory state row h = h

  slices_of_write :
      (s t : Service) (state : ServiceState) (row : WorkItemRow) (title : Option Text)
      (timeline : List CompletionEvent) (now : ℕ)
      → R (slice s row) state
      → R (slice t row) (
          slice t (record (set_column s state row) {
            title = title;
            timeline = timeline;
            updated_at = now;
          }))
  slices_of_write s t state row title timeline now h =
      rw (column-touched t (set_column s state row) title timeline now)
        (slices_of_set s t state row h)

  -- What holds of the slice that an event writes holds of every slice of its row.
  pub slices_of_event :
      (now : ℕ) (event : CompletionEvent)
      → ((prev : Option ServiceState) (w : Worker)
          → event.worker ≡ some w
          → is_worker_progress_event event ≡ true
          → R (or_blank prev) (apply_worker_progress prev event w))
      → ((prev : Option ServiceState) (w : Option Worker)
          → is_worker_progress_event event ≡ false
          → event.worker ≡ w
          → R (or_blank prev) (event_slice prev event w))
      → (t : Service) (row : WorkItemRow)
      → R (slice t row) (slice t (thread_row now event event.worker row))
  unfolding thread_row
  slices_of_event now event beat other t row = by_worker event.worker refl
    where
      by_worker :
          (w : Option Worker)
          → event.worker ≡ w
          → R (slice t row) (slice t (thread_row now event w row))
      by_worker none q =
          slices_of_write event.service t _ row _ _ now
            (other (column event.service row) none (no_worker_no_beat event q) q)
      by_worker (some w) q = elim (Bool-cases (is_worker_progress_event event)) [
        | inl beats ↦ rw beats (
            slices_of_write event.service t _ row _ _ now
              (beat (column event.service row) w q beats))
        | inr scalar ↦ rw scalar (
            slices_of_write event.service t _ row _ _ now
              (other (column event.service row) (some w) scalar q))
      ]

  pub slices_of_poll :
      (now : ℕ) (s : Snapshot)
      → ((prev : ServiceState) → R prev (carry_blind s.state prev))
      → (t : Service) (row : WorkItemRow) → R (slice t row) (slice t (poll_row now s row))
  unfolding poll_row write_snapshot
  slices_of_poll now s carried t row = elim (Bool-cases (leaves_row s row)) [
    | inl left ↦ rw left (same _)
    | inr written ↦
        rw written (slices_of_write s.service t _ row _ _ now (carried (slice s.service row)))
  ]
