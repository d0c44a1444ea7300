-- ===== src/WorkItem/Snapshots.antt =====
-- `upsert_snapshot` of apps/backend/cfactory/store.py: what a poll of a service writes.
use mathlib.Core.Bool.{decide}
use cfactory.Prelude.{
  ℕ, Bool, true, false, ◌&&◌, ◌||◌, not, Option, none, some, List, [], ◌∷◌, if◌then◌else◌, Text,
  option_eq, truthy,
}
use cfactory.Prelude.Dicts.{Dict}
use cfactory.Prelude.Results.{Result, ok, raise, integrity_error, ◌>>=◌}
use cfactory.Status.{is_done, is_dead_stage}
use cfactory.WorkItem.Usage.{TokenUsage, TokenUsage-discrete}
use cfactory.WorkItem.{Service, ServiceState, WorkItemRow, column, set_column, or_blank}
use cfactory.WorkItem.Slices.{or_usage}
use cfactory.WorkItem.Table.{Tenant, get_row, put_row, insert_row, write_tenant}

-- A map of the poll, or the one that is there where the poll's is empty
abbrev pub or_kept {ℓ} : {V : Type ℓ} → Dict V → Dict V → Dict V
or_kept [] kept = kept
or_kept (x ∷ d) kept = x ∷ d

-- The loop over `_POLL_BLIND_FIELDS`
unfoldable pub carry_blind : ServiceState → ServiceState → ServiceState
carry_blind state existing = record state {
  usage = or_usage state.usage existing.usage;
  workers = or_kept state.workers existing.workers;
  worker_progress = or_kept state.worker_progress existing.worker_progress;
  by_provider = or_kept state.by_provider existing.by_provider;
  by_model = or_kept state.by_model existing.by_model;
}

unfoldable pub usage_eq : Option TokenUsage → Option TokenUsage → Bool
usage_eq none none = true
usage_eq (some a) (some b) = decide (TokenUsage-discrete a b)
usage_eq none (some b) = false
usage_eq (some a) none = false

-- The part of the test `unchanged` that reads the slices
unfoldable pub same_state : ServiceState → ServiceState → Bool
unfolding usage_eq
same_state existing new =
    option_eq existing.status new.status
    && (option_eq existing.phase new.phase && usage_eq existing.usage new.usage)

-- `title_needed` on a row that is there
abbrev pub title_needed : Option Text → WorkItemRow → Bool
title_needed title row = truthy title && not (truthy row.title)

-- `superseded`: a dead task does not take back what a different task has finished.
unfoldable pub superseded : Bool → ServiceState → ServiceState → Bool
superseded newest existing new =
    not newest
    && (is_done existing.status
        && (not (option_eq existing.task_id new.task_id) && is_dead_stage new.status))

-- `setattr`, the title, and the clock
unfoldable pub write_snapshot : ℕ → Service → ServiceState → Option Text → WorkItemRow → WorkItemRow
write_snapshot now service new title row = record (set_column service new row) {
  title = if title_needed title row then title else row.title;
  updated_at = now;
}

unfoldable pub new_row : Tenant → Text → ℕ → WorkItemRow
new_row tenant key now = record {
  correlation_key = key;
  tenant_id = write_tenant tenant;
  title = none;
  pfactory = none;
  aifactory = none;
  tfactory = none;
  timeline = [];
  updated_at = now;
}

-- The arguments of a call
pub record Snapshot : Type 0 where
  pub correlation_key : Text
  pub service : Service
  pub state : ServiceState
  pub title : Option Text
  pub newest : Bool

-- Whether the call leaves a row that is there as it is
unfoldable pub leaves_row : Snapshot → WorkItemRow → Bool
unfolding carry_blind same_state superseded
leaves_row s row =
    let existing = or_blank (column s.service row) in
    let new = carry_blind s.state existing in
    (not (title_needed s.title row) && same_state existing new) || superseded s.newest existing new

unfoldable pub poll_row : ℕ → Snapshot → WorkItemRow → WorkItemRow
unfolding leaves_row carry_blind write_snapshot
poll_row now s row =
    if leaves_row s row
    then row
    else write_snapshot now s.service (carry_blind s.state (or_blank (column s.service row)))
        s.title row

abbrev pub PollOutcome : Type 0
PollOutcome = Result (List WorkItemRow × WorkItemRow)

unfoldable pub poll_to : Tenant → ℕ → Snapshot → List WorkItemRow → Option WorkItemRow → PollOutcome
unfolding poll_row new_row write_snapshot
poll_to tenant now s actual none = do
  let row = write_snapshot now s.service s.state s.title (new_row tenant s.correlation_key now)
  rows ← insert_row row actual
  ok (rows, row)
poll_to tenant now s actual (some found) =
    let row = poll_row now s found in ok (put_row tenant s.correlation_key row actual, row)

unfoldable pub poll_attempt :
    Tenant → ℕ → Snapshot → List WorkItemRow → List WorkItemRow → PollOutcome
unfolding poll_to
poll_attempt tenant now s seen actual =
    poll_to tenant now s actual (get_row tenant s.correlation_key seen)

abbrev pub retry_poll : PollOutcome → PollOutcome → PollOutcome
retry_poll (raise integrity_error) again = again
retry_poll first again = first

unfoldable pub upsert_snapshot :
    Tenant → ℕ → Snapshot → List WorkItemRow → List WorkItemRow → PollOutcome
unfolding poll_attempt
upsert_snapshot tenant now s seen actual =
    retry_poll (poll_attempt tenant now s seen actual) (poll_attempt tenant now s actual actual)
