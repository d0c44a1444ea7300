-- ===== src/WorkItem/Reconcile.antt =====
-- The sweeps after a poll, `reconcile_snapshot`, `prune_dead` and `prune_duplicate_stages`, and
-- `compute_liveness` of apps/backend/cfactory/store.py; `needs_human` of
-- apps/backend/cfactory/needs_you.py. Clocks and deadlines are in one unit.
use cfactory.Prelude.{
  ℕ, suc, ◌-◌, Bool, false, ◌&&◌, ◌||◌, not, Option, none, some, List, [], ◌∷◌, ltb, if◌then◌else◌,
  Text, text_eq, truthy, is_some, mem_text,
}
use cfactory.Prelude.Dicts.{Dict, dict_get}
use cfactory.Status.{is_terminal, is_dead_stage, is_review}
use cfactory.WorkItem.{Service, ServiceState, WorkItemRow, column, set_column, or_blank, blank}
use cfactory.WorkItem.Table.{Tenant, visible, row_has_stage_data}

-- `task_id is not None and task_id not in live_task_ids`
abbrev pub is_gone : List Text → Option Text → Bool
is_gone live none = false
is_gone live (some task_id) = not (mem_text task_id live)

-- The test of the loop of `reconcile_snapshot`: neither idle, finished nor dead, and not listed
unfoldable pub is_ghost : List Text → ServiceState → Bool
is_ghost live state =
    truthy state.status
    && (not (is_terminal state.status)
        && (not (is_dead_stage state.status) && is_gone live state.task_id))

unfoldable pub reconcile_row : ℕ → Service → List Text → WorkItemRow → WorkItemRow
unfolding is_ghost
reconcile_row now service live row =
    if is_ghost live (or_blank (column service row))
    then record (set_column service blank row) { updated_at = now }
    else row

-- `reconcile_snapshot`: the new table and the number of cleared stages
unfoldable pub reconcile_snapshot :
    Tenant → ℕ → Service → List Text → List WorkItemRow → List WorkItemRow × ℕ
unfolding reconcile_row is_ghost
reconcile_snapshot tenant now service live [] = ([], 0)
reconcile_snapshot tenant now service live (r ∷ rows) =
    let rest = reconcile_snapshot tenant now service live rows in
    if visible tenant r
    then (
      reconcile_row now service live r ∷ rest.0,
      (if is_ghost live (or_blank (column service r)) then suc rest.1 else rest.1),
    )
    else (r ∷ rest.0, rest.1)

-- The first of the states that has a status, furthest stage first
abbrev pub first_active : List (Option ServiceState) → Option ServiceState
first_active [] = none
first_active (o ∷ os) = let rest = first_active os in if truthy (or_blank o).status then o else rest

-- The furthest stage of a row that has a status
unfoldable pub frontier : WorkItemRow → Option ServiceState
frontier row = first_active (row.tfactory ∷ row.aifactory ∷ row.pfactory ∷ [])

-- The test of `prune_dead`: the frontier is dead, and the row is older than the limit.
unfoldable pub is_expired : ℕ → ℕ → WorkItemRow → Bool
unfolding frontier
is_expired now limit row =
    is_some (frontier row)
    && (is_dead_stage (or_blank (frontier row)).status && ltb limit (now - row.updated_at))

unfoldable pub prune_dead : Tenant → ℕ → ℕ → List WorkItemRow → List WorkItemRow × ℕ
unfolding is_expired
prune_dead tenant now limit [] = ([], 0)
prune_dead tenant now limit (r ∷ rows) =
    let rest = prune_dead tenant now limit rows in
    if visible tenant r && is_expired now limit r
    then (rest.0, suc rest.1)
    else (r ∷ rest.0, rest.1)

-- Whether the poll reports the task of the slice under another key
abbrev pub is_rekeyed : Dict Text → Text → Option Text → Bool
is_rekeyed task_id_to_key key none = false
is_rekeyed task_id_to_key key (some task_id) = elim (dict_get task_id_to_key task_id) [
  | none ↦ false
  | some canon ↦ not (text_eq canon key)
]

abbrev pub keep_row : WorkItemRow → List WorkItemRow → List WorkItemRow
keep_row r rows = if row_has_stage_data r then r ∷ rows else rows

unfoldable pub prune_duplicate_stages :
    Tenant → ℕ → Service → Dict Text → List WorkItemRow → List WorkItemRow × ℕ
prune_duplicate_stages tenant now service task_id_to_key [] = ([], 0)
prune_duplicate_stages tenant now service task_id_to_key (r ∷ rows) =
    let rest = prune_duplicate_stages tenant now service task_id_to_key rows in
    if visible tenant r
      && is_rekeyed task_id_to_key r.correlation_key (or_blank (column service r)).task_id
    then (keep_row (record (set_column service blank r) { updated_at = now }) rest.0, suc rest.1)
    else (r ∷ rest.0, rest.1)

-- `Liveness`: the active stage and its status stand in one state. The age is not rounded, and is 0
-- while the clock is behind.
pub record Liveness : Type 0 where
  pub last_activity_age : ℕ
  pub active_stage : Option ServiceState
  pub stalled : Bool
  pub deadline : ℕ

unfoldable pub compute_liveness : ℕ → ℕ → WorkItemRow → Liveness
unfolding frontier
compute_liveness now deadline item =
    let age = now - item.updated_at in
    let active = is_some (frontier item) && not (is_terminal (or_blank (frontier item)).status) in
    record {
      last_activity_age = age;
      active_stage = if active then frontier item else none;
      stalled = active && ltb deadline age;
      deadline = deadline;
    }

abbrev in_review : Option ServiceState → Bool
in_review o = truthy (or_blank o).status && is_review (or_blank o).status

-- `needs_human`
unfoldable pub needs_human : ℕ → ℕ → WorkItemRow → Bool
unfolding compute_liveness
needs_human now deadline wi =
    (in_review wi.pfactory || (in_review wi.aifactory || in_review wi.tfactory))
    || (compute_liveness now deadline wi).stalled

-- `needs_you_count`
unfoldable pub needs_you_count : ℕ → ℕ → List WorkItemRow → ℕ
unfolding needs_human
needs_you_count now deadline [] = 0
needs_you_count now deadline (wi ∷ items) =
    let rest = needs_you_count now deadline items in
    if needs_human now deadline wi then suc rest else rest
