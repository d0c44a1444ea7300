-- ===== src/Intake/Stages.antt =====
-- The stages of a card and the record kept of each, in apps/backend/cfactory/card_intake.py.
use cfactory.Prelude.{
  Bool, true, false, ◌&&◌, ◌||◌, not, Option, none, some, List, [], ◌∷◌, if◌then◌else◌, Text, codes,
  truthy, is_some, keep_if,
}
use cfactory.WorkItem.{Service, pfactory, aifactory, tfactory}
use cfactory.Cards.{
  CardRow, CardTier, hard, StageRun, StageRuns, RunStatus, queued, dispatched, done, failed,
}
use cfactory.Intake.{
  Stage, plan, code, test, Refusal, no_tier, stage_already_running, no_build_to_verify,
  no_intake_project, Warning, plan_skipped, tier_override,
}

-- `SEQUENCE`
abbrev pub sequence : List Stage
sequence = plan ∷ code ∷ test ∷ []

abbrev pub same_stage : Stage → Stage → Bool
same_stage plan plan = true
same_stage code code = true
same_stage test test = true
same_stage _ _ = false

-- `STAGE_SERVICE`
abbrev pub stage_service : Stage → Service
stage_service plan = pfactory
stage_service code = aifactory
stage_service test = tfactory

-- `Service.value`
abbrev pub service_name : Service → Text
service_name pfactory = codes "pfactory"
service_name aifactory = codes "aifactory"
service_name tfactory = codes "tfactory"

abbrev pub same_status : RunStatus → RunStatus → Bool
same_status queued queued = true
same_status dispatched dispatched = true
same_status done done = true
same_status failed failed = true
same_status _ _ = false

-- `runs.get(stage)`
abbrev pub run_of : Stage → StageRuns → Option StageRun
run_of plan runs = runs.plan
run_of code runs = runs.code
run_of test runs = runs.test

abbrev pub status_of_run : Option StageRun → Option RunStatus
status_of_run none = none
status_of_run (some run) = run.status

-- `stage_status`
abbrev pub stage_status : CardRow → Stage → Option RunStatus
stage_status card stage = status_of_run (run_of stage card.stage_runs)

-- `stage_status(card, stage) == status`
abbrev pub has_status : RunStatus → Option RunStatus → Bool
has_status s none = false
has_status s (some r) = same_status s r

unfoldable pub stage_is : CardRow → RunStatus → Stage → Bool
stage_is card status stage = has_status status (stage_status card stage)

-- `stage_status(card, stage) in _PENDING`
unfoldable pub is_pending : CardRow → Stage → Bool
unfolding stage_is
is_pending card stage = stage_is card queued stage || stage_is card dispatched stage

-- `pending_stages`
unfoldable pub pending_stages : CardRow → List Stage
unfolding is_pending
pending_stages card = keep_if (is_pending card) sequence

-- `{**runs.get(name, {}), **fields}`, with the fields as what they do to a record
abbrev pub no_run : StageRun
no_run = record { service = none; status = none; dispatched_at = none; ref = none; detail = none }

abbrev pub or_no_run : Option StageRun → StageRun
or_no_run none = no_run
or_no_run (some run) = run

abbrev pub put_run : Stage → StageRun → StageRuns → StageRuns
put_run plan run runs = record runs { plan = some run }
put_run code run runs = record runs { code = some run }
put_run test run runs = record runs { test = some run }

abbrev pub RunUpdates : Type 0
RunUpdates = List (Stage × (StageRun → StageRun))

unfoldable pub merge_runs : RunUpdates → StageRuns → StageRuns
merge_runs [] runs = runs
merge_runs ((stage, write) ∷ updates) runs =
    merge_runs updates (put_run stage (write (or_no_run (run_of stage runs))) runs)

-- `card.tier in _PLANNING_TIERS`
abbrev pub plans_first : Option CardTier → Bool
plans_first (some hard) = true
plans_first _ = false

-- `default_stage`
unfoldable pub default_stage : CardRow → Stage
default_stage card = if plans_first card.tier then plan else code

abbrev pub is_stage_plan : Stage → Bool
is_stage_plan = same_stage plan

-- `refuse_reason`
unfoldable pub refuse_reason : CardRow → Stage → Option Text → Option Refusal
unfolding stage_is
refuse_reason card stage project_id =
    if not (is_some card.tier)
    then some no_tier
    else (if stage_is card dispatched stage
        then some stage_already_running
        else (if same_stage stage test
              && (not (truthy card.correlation_key) || not (stage_is card done code))
            then some no_build_to_verify
            else (if not (is_stage_plan stage) && not (truthy project_id)
                then some no_intake_project
                else none)))

abbrev warn_if : Bool → Warning → List Warning → List Warning
warn_if true w ws = w ∷ ws
warn_if false w ws = ws

-- `stage_warnings`
unfoldable pub stage_warnings : CardRow → Stage → List Warning
unfolding stage_is default_stage
stage_warnings card stage =
    warn_if (same_stage stage code && (plans_first card.tier && not (stage_is card done plan)))
      plan_skipped
      (warn_if (not (same_stage stage (default_stage card)) && not (same_stage stage test))
        tier_override [])
