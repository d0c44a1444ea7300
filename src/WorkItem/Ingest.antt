-- ===== src/WorkItem/Ingest.antt =====
-- `upsert_from_event` of apps/backend/cfactory/store.py. The caller's clock is an argument.
use cfactory.Prelude.{ℕ, Bool, true, false, Option, none, some, List, [], ◌∷◌, ◌++◌, if◌then◌else◌}
use cfactory.Prelude.Results.{Result, ok, raise, integrity_error, ◌>>=◌}
use cfactory.WorkItem.Usage.{Worker}
use cfactory.WorkItem.{CompletionEvent, ServiceState, WorkItemRow, column, set_column}
use cfactory.WorkItem.Slices.{
  is_worker_event, is_worker_progress_event, already_recorded, apply_worker_progress, apply_worker,
  apply_terminal_or_scalar, attach_annotations,
}
use cfactory.WorkItem.Table.{Tenant, get_row, put_row, insert_row, write_tenant}

-- The slice of an event that is no heartbeat
unfoldable pub event_slice : Option ServiceState → CompletionEvent → Option Worker → ServiceState
unfolding apply_worker apply_terminal_or_scalar attach_annotations is_worker_event
event_slice prev event none = attach_annotations (apply_terminal_or_scalar prev event) event
event_slice prev event (some w) =
    attach_annotations
      (if is_worker_event event
        then apply_worker prev event w
        else apply_terminal_or_scalar prev event)
      event

-- The part of the transaction that writes to its row: a heartbeat changes its series alone, any
-- other event its slice and the timeline.
unfoldable pub thread_row : ℕ → CompletionEvent → Option Worker → WorkItemRow → WorkItemRow
unfolding event_slice is_worker_progress_event apply_worker_progress
thread_row now event none row =
    record (set_column event.service (event_slice (column event.service row) event none) row) {
      timeline = row.timeline ++ event ∷ [];
      updated_at = now;
    }
thread_row now event (some w) row =
    if is_worker_progress_event event
    then record (set_column event.service (apply_worker_progress (column event.service row) event w)
        row) { updated_at = now }
    else record (set_column event.service (event_slice (column event.service row) event (some w))
        row) { timeline = row.timeline ++ event ∷ []; updated_at = now }

-- The row that an event on a new key starts from
unfoldable pub new_item : Tenant → CompletionEvent → ℕ → WorkItemRow
new_item tenant event now = record {
  correlation_key = event.correlation_key;
  tenant_id = write_tenant tenant;
  title = none;
  pfactory = none;
  aifactory = none;
  tfactory = none;
  timeline = [];
  updated_at = now;
}

-- The write, by the row that was read. It meets the table as it is by then; what is written of a row that was
-- there is the row as it was read, with its changes.
abbrev pub Outcome : Type 0
Outcome = Result (List WorkItemRow × (WorkItemRow × Bool))

unfoldable pub apply_to :
    Tenant → ℕ → CompletionEvent → List WorkItemRow → Option WorkItemRow → Outcome
unfolding thread_row new_item already_recorded
apply_to tenant now event actual none = do
  let row = thread_row now event event.worker (new_item tenant event now)
  rows ← insert_row row actual
  ok (rows, (row, true))
apply_to tenant now event actual (some found) =
    let row = thread_row now event event.worker found in
    if already_recorded found.timeline event
    then ok (actual, (found, false))
    else ok (put_row tenant event.correlation_key row actual, (row, true))

-- One attempt: the row is looked for in `seen`, and the write meets `actual`.
unfoldable pub attempt :
    Tenant → ℕ → CompletionEvent → List WorkItemRow → List WorkItemRow → Outcome
unfolding apply_to
attempt tenant now event seen actual =
    apply_to tenant now event actual (get_row tenant event.correlation_key seen)

-- A second attempt is made after an `IntegrityError`, on the table that caused it.
abbrev pub retry_on_conflict : Outcome → Outcome → Outcome
retry_on_conflict (raise integrity_error) again = again
retry_on_conflict first again = first

unfoldable pub upsert_from_event :
    Tenant → ℕ → CompletionEvent → List WorkItemRow → List WorkItemRow → Outcome
unfolding attempt
upsert_from_event tenant now event seen actual =
    retry_on_conflict (attempt tenant now event seen actual)
      (attempt tenant now event actual actual)
