-- ===== src/WorkItem/Annotations.antt =====
-- Usage and annotation blocks under events and polls: `_apply_terminal_or_scalar`,
-- `_attach_access_verification` and `_POLL_BLIND_FIELDS` of apps/backend/cfactory/store.py.
use cfactory.Prelude.{
  ℕ, ◌≡◌, ◌⊎◌, refl, ap, ◌∙◌, inl, inr, true, false, Option, none, some, Bool-cases, is_some,
  truthy, arith, if◌then◌else◌,
}
use cfactory.WorkItem.{
  Service, Annotation, pfactory, aifactory, tfactory, CompletionEvent, ServiceState, WorkItemRow,
  set_column, column, or_blank,
}
use cfactory.WorkItem.Usage.{Worker, TokenUsage}
use cfactory.WorkItem.Slices.{
  is_worker_event, is_worker_progress_event, apply_worker_progress, apply_worker,
  apply_terminal_or_scalar, attach_annotations, or_usage,
}
use cfactory.WorkItem.Ingest.{event_slice, thread_row}
use cfactory.WorkItem.Snapshots.{Snapshot, carry_blind, leaves_row, write_snapshot, poll_row}
use cfactory.WorkItem.Kept.{slice, slices_of_event, slices_of_poll, column-touched}

-- The usage is as it was, or it is the one that was brought.
abbrev pub KeepsUsage : Option TokenUsage → ServiceState → ServiceState → Type 0
KeepsUsage brought before after =
    (after.usage ≡ before.usage) ⊎ ((is_some brought ≡ true) × (after.usage ≡ brought))

or_usage-KeepsUsage :
    (u v : Option TokenUsage) → (or_usage u v ≡ v) ⊎ ((is_some u ≡ true) × (or_usage u v ≡ u))
or_usage-KeepsUsage none v = inl refl
or_usage-KeepsUsage (some u) v = inr (refl, refl)

event_slice-KeepsUsage :
    (event : CompletionEvent) (prev : Option ServiceState) (w : Option Worker)
    → KeepsUsage event.usage (or_blank prev) (event_slice prev event w)
unfolding event_slice attach_annotations apply_terminal_or_scalar apply_worker
event_slice-KeepsUsage event prev none = or_usage-KeepsUsage event.usage (or_blank prev).usage
event_slice-KeepsUsage event prev (some w) = elim (Bool-cases (is_worker_event event)) [
  | inl sub_event ↦ rw sub_event (inl refl)
  | inr scalar ↦ rw scalar (or_usage-KeepsUsage event.usage (or_blank prev).usage)
]

-- After an event of any kind, and after any poll, the usage of a slice, of any service of the row, is
-- exactly what it was, or exactly the usage that the event or the poll brought; where none is brought,
-- it is what it was.
pub usage_kept :
    (now : ℕ) (event : CompletionEvent) (s : Snapshot) (t : Service) (row : WorkItemRow)
    → KeepsUsage event.usage (slice t row) (slice t (thread_row now event event.worker row))
      × KeepsUsage s.state.usage (slice t row) (slice t (poll_row now s row))
unfolding apply_worker_progress carry_blind
usage_kept now event s t row = (
  slices_of_event (KeepsUsage event.usage) (λ state. inl refl) now event (λ prev w q beat. inl refl)
      (λ prev w other q. event_slice-KeepsUsage event prev w) t row,
  slices_of_poll (KeepsUsage s.state.usage) (λ state. inl refl) now s
      (λ prev. or_usage-KeepsUsage s.state.usage prev.usage) t row,
)

pub slice-written :
    (s : Service) (state : ServiceState) (row : WorkItemRow)
    → slice s (set_column s state row) ≡ state
slice-written pfactory state row = refl
slice-written aifactory state row = refl
slice-written tfactory state row = refl

-- The slice that an event writes, at its own service
written_by_event :
    (now : ℕ) (event : CompletionEvent) (row : WorkItemRow) (w : Option Worker)
    → is_worker_progress_event event ≡ false
    → slice event.service (thread_row now event w row)
      ≡ event_slice (column event.service row) event w
unfolding thread_row
written_by_event now event row none other =
    ap or_blank (
      column-touched event.service
        (set_column event.service (event_slice (column event.service row) event none) row) _ _ now)
    ∙ slice-written event.service (event_slice (column event.service row) event none) row
written_by_event now event row (some w) other = rw other (
    ap or_blank (
      column-touched event.service
        (set_column event.service (event_slice (column event.service row) event (some w)) row) _ _
        now)
    ∙ slice-written event.service (event_slice (column event.service row) event (some w)) row)

pub written_by_poll :
    (now : ℕ) (s : Snapshot) (row : WorkItemRow)
    → leaves_row s row ≡ false
    → slice s.service (poll_row now s row) ≡ carry_blind s.state (slice s.service row)
unfolding poll_row write_snapshot
written_by_poll now s row written = rw written (
    ap or_blank (
      column-touched s.service
        (set_column s.service (carry_blind s.state (slice s.service row)) row) _ _ now)
    ∙ slice-written s.service (carry_blind s.state (slice s.service row)) row)

no_sub_event : (event : CompletionEvent) → event.worker ≡ none → is_worker_event event ≡ false
unfolding is_worker_event
no_sub_event event q = ground (arith, q)

extra_of_event :
    (prev : Option ServiceState) (event : CompletionEvent) (w : Option Worker) (a : Annotation)
    → event.worker ≡ w
    → (event_slice prev event w).extra a ≡ (
        if truthy (event.annotations a)
        then event.annotations a
        else if is_worker_event event
        then (or_blank prev).extra a
        else none)
unfolding event_slice attach_annotations apply_terminal_or_scalar apply_worker
extra_of_event prev event none a q = rw (no_sub_event event q) refl
extra_of_event prev event (some w) a q = elim (Bool-cases (is_worker_event event)) [
  | inl sub_event ↦ rw sub_event refl
  | inr scalar ↦ rw scalar refl
]

-- What becomes of an annotation block of a slice. A block on the event, which is no heartbeat, is
-- stored. Where the event has none, the earlier block stays only under a worker's sub-event; under any
-- other event it is gone. A poll that writes the row replaces every block by its own.
pub annotations_after :
    (now : ℕ) (event : CompletionEvent) (s : Snapshot) (row : WorkItemRow) (a : Annotation)
    → is_worker_progress_event event ≡ false
    → leaves_row s row ≡ false
    → ((slice event.service (thread_row now event event.worker row)).extra a ≡ (
        if truthy (event.annotations a)
        then event.annotations a
        else if is_worker_event event
        then (slice event.service row).extra a
        else none))
      × ((slice s.service (poll_row now s row)).extra a ≡ s.state.extra a)
unfolding carry_blind
annotations_after now event s row a other written = (
  ap (λ state. state.extra a) (written_by_event now event row event.worker other)
      ∙ extra_of_event (column event.service row) event event.worker a refl,
  ap (λ state. state.extra a) (written_by_poll now s row written),
)
