-- ===== src/Intake/Dispatching.antt =====
-- Dispatching a card: `_write_runs`, `_send`, `dispatch_card`, `maybe_dispatch`, `dispatch_stage` and
-- `start_sequence` of apps/backend/cfactory/card_intake.py. A card is an argument, as the caller read it,
-- and may differ from its row.
use cfactory.Prelude.{
  ℕ, Bool, true, false, ◌||◌, not, Option, none, some, List, [], ◌∷◌, ◌++◌, map, if◌then◌else◌,
  Text, codes, is_some, keep_if,
}
use cfactory.Prelude.Decimal.{str_int}
use cfactory.Prelude.Exec.{Exec, pure, lift, ◌>>=◌}
use cfactory.Prelude.Results.{Result, ok, raise}
use cfactory.Actions.{Request, PreparedAction, ActionResult, execute_action}
use cfactory.Cards.{
  CardRow, ready, in_progress, blocked, StageRun, queued, dispatched, done, failed, CardStatus,
  Changes, no_changes,
}
use cfactory.Cards.Board.{update}
use cfactory.Intake.{
  Stage, plan, Refusal, no_tier, stage_already_running, no_intake_project, Payload, GitTarget,
  Dispatch, already_dispatched, already_complete, not_configured, refused, failed_to_send,
  dispatched_to, warned, in_sequence, sequence_complete, World, Site,
}
use cfactory.Intake.Stages.{
  sequence, stage_service, service_name, stage_is, merge_runs, RunUpdates, default_stage,
  refuse_reason, stage_warnings,
}
use cfactory.Intake.Prepare.{qualify_repo, clone_url, prepare_stage, upstream_key}

abbrev pub or_card : Option CardRow → CardRow → CardRow
or_card none card = card
or_card (some new) card = new

abbrev pub with_rows : World → List CardRow → World
with_rows w rows = record w { rows = rows }

abbrev pub after_update :
    World → Result (List CardRow × Option CardRow) → Result (Option CardRow) × World
after_update w (raise e) = (raise e, w)
after_update w (ok (rows, found)) = (ok found, with_rows w rows)

-- `store.update(card_key, changes)`
unfoldable pub update_row : Site → Text → Changes → Exec World (Option CardRow)
update_row site key changes w = after_update w (update site.tenant site.now key changes w.rows)

-- `store.update(card.card_key, changes) or card`
unfoldable pub update_card : Site → CardRow → Changes → Exec World CardRow
unfolding update_row
update_card site card changes = do
  found ← update_row site card.card_key changes
  pure (or_card found card)

-- `_write_runs`
unfoldable pub write_runs : Site → CardRow → RunUpdates → Changes → Exec World CardRow
unfolding update_card merge_runs
write_runs site card updates changes =
    update_card site card
      (record changes { stage_runs = some (merge_runs updates card.stage_runs) })

abbrev pub with_sent :
    World → Result ActionResult × List (Request Payload) → Result ActionResult × World
with_sent w outcome = (outcome.0, record w { sent = outcome.1 })

abbrev pub execute : Site → PreparedAction Payload → Exec World ActionResult
execute site action w = with_sent w (execute_action site.web site.settings action w.sent)

-- `f"dispatch failed: HTTP {status}"`
abbrev pub failure_text : ActionResult → Text
failure_text result = codes "dispatch failed: HTTP " ++ str_int result.status_code

abbrev pub failed_run : Stage → Text → StageRun → StageRun
failed_run stage reason run = record run {
  service = some (service_name (stage_service stage));
  status = some failed;
  detail = some reason;
}

abbrev pub sent_run : Stage → ℕ → Option Text → StageRun → StageRun
sent_run stage now ref run = record {
  service = some (service_name (stage_service stage));
  status = some dispatched;
  dispatched_at = some now;
  ref = ref;
  detail = none;
}

abbrev pub queued_run : Stage → StageRun → StageRun
queued_run stage run = record run {
  service = some (service_name (stage_service stage));
  status = some queued;
  detail = none;
}

-- `a or b or c`, over texts
abbrev pub text_or : Option Text → Text → Text
text_or none rest = rest
text_or (some []) rest = rest
text_or (some (c ∷ s)) rest = c ∷ s

-- `correlation_key`: the card's own, or that of the answer, or the card's key
unfoldable pub key_after : CardRow → Option Text → Text
key_after card ref = text_or card.correlation_key (text_or ref card.card_key)

-- `_send`, behind the request
unfoldable pub record_sent : Site → CardRow → Stage → ActionResult → Exec World Dispatch
unfolding write_runs upstream_key key_after
record_sent site card stage result =
    let ref = upstream_key result.body (stage_service stage) in
    if result.succeeded
    then (do
      _ ← write_runs site card ((stage, sent_run stage site.now ref) ∷ []) (record no_changes {
        correlation_key = some (some (key_after card ref));
        status = some in_progress;
      })
      pure (dispatched_to stage (key_after card ref) result))
    else (do
      _ ←
          write_runs site card ((stage, failed_run stage (failure_text result)) ∷ [])
            (record no_changes { status = some blocked })
      pure (failed_to_send stage result))

-- `_send`
unfoldable pub send : Site → CardRow → Stage → PreparedAction Payload → Exec World Dispatch
unfolding record_sent
send site card stage action = do result ← execute site action; record_sent site card stage result

-- `repo_ref` and `aifactory_project_id`
abbrev pub repo_of : GitTarget → Option Text
repo_of target = qualify_repo target.provider target.project

abbrev pub send_or_block :
    Site → CardRow → Stage → Option (PreparedAction Payload) → Exec World Dispatch
send_or_block site card stage (some action) = send site card stage action
send_or_block site card stage none = do
  _ ← update_card site card (record no_changes { status = some blocked })
  pure not_configured

abbrev pub dispatch_fresh : Site → CardRow → Stage → Exec World Dispatch
dispatch_fresh site card stage = do
  target ← lift (site.target_of card)
  action ← lift (prepare_stage card stage target.aifactory_project_id (repo_of target) none)
  send_or_block site card stage action

-- `dispatch_card`
unfoldable pub dispatch_card : Site → CardRow → Exec World Dispatch
unfolding stage_is default_stage send
dispatch_card site card =
    let stage = default_stage card in
    if stage_is card dispatched stage || stage_is card done stage
    then pure (already_dispatched stage)
    else dispatch_fresh site card stage

abbrev is_ready : CardStatus → Bool
is_ready ready = true
is_ready _ = false

-- `maybe_dispatch`, `none` where the card is no intake
unfoldable pub maybe_dispatch : Site → CardRow → Exec World (Option Dispatch)
unfolding dispatch_card
maybe_dispatch site card =
    if not (is_ready card.status) || not (is_some card.tier)
    then pure none
    else (do result ← dispatch_card site card; pure (some result))

abbrev pub send_with_warnings :
    Site → CardRow → Stage → Option (PreparedAction Payload) → Exec World Dispatch
send_with_warnings site card stage none = pure (refused no_intake_project stage)
send_with_warnings site card stage (some action) = do
  result ← send site card stage action
  pure (warned result (stage_warnings card stage))

abbrev pub send_allowed : Site → CardRow → Stage → GitTarget → Option Refusal → Exec World Dispatch
send_allowed site card stage target (some refusal) = pure (refused refusal stage)
send_allowed site card stage target none = do
  git_url ← lift (clone_url site.web target.provider target.base_url target.project)
  action ← lift (prepare_stage card stage target.aifactory_project_id (repo_of target) git_url)
  send_with_warnings site card stage action

-- `dispatch_stage`
unfoldable pub dispatch_stage : Site → CardRow → Stage → Exec World Dispatch
unfolding stage_is refuse_reason send
dispatch_stage site card stage =
    if stage_is card done stage then pure (already_complete stage) else (do
      target ← lift (site.target_of card)
      send_allowed site card stage target (refuse_reason card stage target.aifactory_project_id))

-- The stages with a status, in order
unfoldable pub first_live : CardRow → List Stage → Option Stage
unfolding stage_is
first_live card [] = none
first_live card (s ∷ stages) =
    let rest = first_live card stages in if stage_is card dispatched s then some s else rest

abbrev pub run_from : Site → CardRow → List Stage → Exec World Dispatch
run_from site card [] = pure sequence_complete
run_from site card (s ∷ todo) = do
  card' ← write_runs site card (map (λ x. (x, queued_run x)) (s ∷ todo)) no_changes
  result ← dispatch_stage site card' s
  pure (in_sequence (s ∷ todo) result)

abbrev pub start_idle : Site → CardRow → Option Stage → Exec World Dispatch
start_idle site card (some live) = pure (refused stage_already_running live)
start_idle site card none = run_from site card (keep_if (λ s. not (stage_is card done s)) sequence)

-- `start_sequence`
unfoldable pub start_sequence : Site → CardRow → Exec World Dispatch
unfolding first_live stage_is dispatch_stage write_runs
start_sequence site card =
    if not (is_some card.tier)
    then pure (refused no_tier plan)
    else start_idle site card (first_live card sequence)
