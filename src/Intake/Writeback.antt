-- ===== src/Intake/Writeback.antt =====
-- The write-back of a work item onto its card: `_settle`, `_advance`, `card_status_for` and `apply_status` of
-- apps/backend/cfactory/card_intake.py, and `ingest_event` of apps/backend/cfactory/routes_events.py, which
-- calls it.
use cfactory.Prelude.{
  ℕ, Bool, true, false, ◌||◌, not, Option, none, some, List, [], ◌∷◌, ◌++◌, if◌then◌else◌, Text,
  truthy, is_empty, any,
}
use cfactory.Prelude.Exec.{Exec, pure, ◌>>=◌}
use cfactory.Prelude.Results.{Result, ok, raise}
use cfactory.Status.{is_failure_or_stuck, is_done}
use cfactory.WorkItem.{
  Service, pfactory, aifactory, tfactory, CompletionEvent, WorkItemRow, column, or_blank,
}
use cfactory.WorkItem.Table.{Tenant}
use cfactory.WorkItem.Ingest.{upsert_from_event}
use cfactory.Cards.{
  CardRow, CardStatus, backlog, ready, in_progress, blocked, StageRun, queued, dispatched, done,
  failed, no_changes,
}
use cfactory.Cards.Board.{get, get_by_correlation_key}
use cfactory.Intake.{Stage, Dispatch, World, Site}
use cfactory.Intake.Stages.{sequence, stage_service, stage_is, pending_stages, RunUpdates}
use cfactory.Intake.Dispatching.{or_card, update_row, update_card, write_runs, dispatch_stage}

-- `getattr(item, service).status`
abbrev pub status_at : WorkItemRow → Service → Option Text
status_at item service = (or_blank (column service item)).status

abbrev pub settled_run : Option Text → StageRun → StageRun
settled_run status run = record run { status = some done; detail = status }

abbrev pub broken_run : Option Text → StageRun → StageRun
broken_run status run = record run { status = some failed; detail = status }

-- The update that the loop of `_settle` collects for a stage in flight
unfoldable pub settle_update : Stage → Option Text → RunUpdates
settle_update stage status =
    if not (truthy status)
    then []
    else (if is_failure_or_stuck status
        then (stage, broken_run status) ∷ []
        else (if is_done status then (stage, settled_run status) ∷ [] else []))

unfoldable pub settle_updates : CardRow → WorkItemRow → List Stage → RunUpdates
unfolding stage_is settle_update
settle_updates card item [] = []
settle_updates card item (s ∷ stages) =
    (if stage_is card dispatched s then settle_update s (status_at item (stage_service s)) else [])
    ++ settle_updates card item stages

abbrev pub write_if_any : Site → CardRow → RunUpdates → Exec World CardRow
write_if_any site card [] = pure card
write_if_any site card (u ∷ updates) = write_runs site card (u ∷ updates) no_changes

-- `_settle`
unfoldable pub settle : Site → CardRow → WorkItemRow → Exec World CardRow
unfolding settle_updates write_runs
settle site card item = write_if_any site card (settle_updates card item sequence)

unfoldable pub first_queued : CardRow → List Stage → Option Stage
unfolding stage_is
first_queued card [] = none
first_queued card (s ∷ stages) =
    let rest = first_queued card stages in if stage_is card queued s then some s else rest

-- `on_dispatch(card_key, result)`
abbrev pub report : Text → Dispatch → Exec World Dispatch
report key result w = (ok result, record w { reported = w.reported ++ (key, result) ∷ [] })

-- `store.get(card_key) or card`
abbrev pub read_again : Site → CardRow → Exec World CardRow
read_again site card w = (ok (or_card (get site.tenant card.card_key w.rows) card), w)

abbrev pub advance_to : Site → CardRow → Option Stage → Exec World CardRow
advance_to site card none = pure card
advance_to site card (some next) = do
  result ← dispatch_stage site card next
  _ ← report card.card_key result
  read_again site card

-- `_advance`
unfoldable pub advance : Site → CardRow → Exec World CardRow
unfolding stage_is update_card first_queued dispatch_stage get
advance site card =
    if any (stage_is card dispatched) sequence
    then pure card
    else (if any (stage_is card failed) sequence
        then update_card site card (record no_changes { status = some blocked })
        else advance_to site card (first_queued card sequence))

abbrev pub is_plan_service : Service → Bool
is_plan_service pfactory = true
is_plan_service _ = false

-- `_STAGE_ORDER`
abbrev pub stage_order : List Service
stage_order = tfactory ∷ aifactory ∷ pfactory ∷ []

abbrev pub status_for : Service → Option Text → Bool → CardStatus
status_for service status remaining =
    if is_failure_or_stuck status
    then blocked
    else (if is_done status
        then (if remaining || is_plan_service service then in_progress else CardStatus.done)
        else in_progress)

unfoldable pub status_from : WorkItemRow → Bool → List Service → Option CardStatus
status_from item remaining [] = none
status_from item remaining (s ∷ services) =
    let rest = status_from item remaining services in
    if truthy (status_at item s) then some (status_for s (status_at item s) remaining) else rest

-- `card_status_for`
unfoldable pub card_status_for : WorkItemRow → Bool → Option CardStatus
unfolding status_from
card_status_for item remaining = status_from item remaining stage_order

abbrev pub same_card_status : CardStatus → CardStatus → Bool
same_card_status backlog backlog = true
same_card_status ready ready = true
same_card_status in_progress in_progress = true
same_card_status blocked blocked = true
same_card_status CardStatus.done CardStatus.done = true
same_card_status _ _ = false

-- What `apply_status` returns: nothing where no card is joined; the card that keeps its status, with the
-- one that was read, which the caller compares it to; or the result of the update
pub data WriteBack : Type 0 where
  no_card : WriteBack
  same_status : (card advanced : CardRow) → WriteBack
  written : Option CardRow → WriteBack

abbrev pub write_status : Site → CardRow → CardRow → Option CardStatus → Exec World WriteBack
write_status site card advanced none = pure (same_status card advanced)
write_status site card advanced (some status) =
    if same_card_status status advanced.status then pure (same_status card advanced) else (do
      new ← update_row site card.card_key (record no_changes { status = some status })
      pure (written new))

abbrev pub write_back : Site → WorkItemRow → Option CardRow → Exec World WriteBack
write_back site item none = pure no_card
write_back site item (some card) = do
  settled ← settle site card item
  advanced ← advance site settled
  write_status site card advanced (card_status_for item (not (is_empty (pending_stages advanced))))

-- `apply_status`
unfoldable pub apply_status : Site → WorkItemRow → Exec World WriteBack
unfolding get_by_correlation_key settle advance card_status_for pending_stages update_row
apply_status site item w =
    write_back site item (get_by_correlation_key site.tenant item.correlation_key w.rows) w

-- Both tables, and what was sent
abbrev pub after_upsert :
    Site
    → World
    → List WorkItemRow
    → Result (List WorkItemRow × (WorkItemRow × Bool))
    → Result Bool × (List WorkItemRow × World)
after_upsert site w items (raise e) = (raise e, (items, w))
after_upsert site w items (ok (items', (item, false))) = (ok false, (items', w))
after_upsert site w items (ok (items', (item, true))) =
    let (reply, w') = (do _ ← apply_status site item; pure true) w in (reply, (items', w'))

-- `ingest_event`, over the two tables: whether the event was applied
unfoldable pub ingest_event :
    Site
    → Tenant
    → ℕ
    → CompletionEvent
    → List WorkItemRow
    → World
    → Result Bool × (List WorkItemRow × World)
unfolding upsert_from_event apply_status
ingest_event site tenant clock event items w =
    after_upsert site w items (upsert_from_event tenant clock event items items)
