-- ===== src/Intake/Examples.antt =====
-- The theorems on card_intake.py at concrete cards.
use cfactory.Intake.Prepare.{clone_url, prepare_stage}
use cfactory.WorkItem.Slices.{is_worker_progress_event}
use cfactory.Prelude.Strings.{split_by, lower, strip}
use cfactory.Status.{
  is_failure_or_stuck, is_failed, matches, tokens, is_separator, is_stuck, is_done,
}
use cfactory.Prelude.{◌≡◌, ◌≢◌, refl, false, none, some, List, [], ◌∷◌, ◌++◌, Text, codes}
use cfactory.Prelude.Results.{Result, ok, raise}
use cfactory.WorkItem.{aifactory, Service, CompletionEvent, WorkItemRow, blank}
use cfactory.WorkItem.Usage.{Worker}
use cfactory.WorkItem.Ingest.{thread_row}
use cfactory.Actions.{Web, object, string, execute_action, step_result}
use cfactory.Cards.{CardRow, ready, in_progress, hard, no_runs, StageRun, dispatched, failed}
use cfactory.Cards.Board.{get, update}
use cfactory.Cards.Indexed.{IsIndexed}
use cfactory.Intake.{plan, code, Payload, World, Site, Dispatch, GitTarget}
use cfactory.Intake.Stages.{stage_status, pending_stages}
use cfactory.Intake.Brief.{brief, body_text, starts_with_hash, has_own_criteria}
use cfactory.Intake.Dispatching.{with_rows, dispatch_stage}
use cfactory.Intake.Writeback.{WriteBack, written, apply_status, settle}
use cfactory.Intake.Held.{Holds}
use cfactory.Intake.Presses.{is_sent, second_reply, press_twice}
use cfactory.Intake.Verdicts.{IsVerdict, apply_status_done}
use cfactory.Intake.Calls.{start, call, pressed, correlation_key_once}
use cfactory.Intake.Stale.{heartbeat_settles_stale}
use cfactory.Intake.Carried.{Infix, brief_carries}

abbrev team : Text
team = codes "acme"

abbrev target : GitTarget
target = record {
  provider = codes "github";
  base_url = codes "https://api.github.com";
  project = some (codes "org/app");
  aifactory_project_id = some (codes "p1");
}

abbrev upstream : Web Payload
upstream = record {
  urlsplit = λ s. ok ([], []);
  answer = λ sent request. ok (record {
    status_code = 200;
    json = some (object ((codes "task_id", string (codes "t1")) ∷ []));
    text = [];
  });
}

abbrev site : Site
site = record {
  tenant = some team;
  now = 500;
  settings = record {
    pfactory_api_url = codes "http://pfactory";
    aifactory_api_url = codes "http://aifactory";
    tfactory_api_url = codes "http://tfactory";
    upstream_token = none;
  };
  web = upstream;
  target_of = λ card. ok target;
}

abbrev card_1 : CardRow
card_1 = record {
  card_key = codes "FCT-1";
  tenant_id = team;
  title = codes "Add login";
  description = some (codes "Use OIDC.");
  acceptance_criteria = codes "A user can log in" ∷ [];
  status = ready;
  priority = 2;
  tier = some hard;
  assignee = none;
  milestone = none;
  correlation_key = none;
  stage_runs = no_runs;
  issue_ref = none;
  repository_id = none;
  issue_state = none;
  labels = [];
  github_sync_error = none;
  comments_synced_at = none;
  deleted_at = none;
  created_at = 100;
  updated_at = 100;
}

abbrev run_1 : StageRun
run_1 = record {
  service = some (codes "aifactory");
  status = some dispatched;
  dispatched_at = some 400;
  ref = none;
  detail = none;
}

abbrev worker_1 : Worker
worker_1 = record {
  worker_id = codes "w1";
  subtask_id = none;
  agent_phase = none;
  provider = some (codes "local");
  model = none;
  input_tokens = 30;
  output_tokens = 12;
  total_tokens = 42;
  cost_usd = 7;
  duration_ms = 900;
  billing_mode = none;
  elapsed_ms = 1200;
}

-- The card with its build in flight
abbrev card_2 : CardRow
card_2 = record card_1 {
  status = in_progress;
  correlation_key = some (codes "t1");
  stage_runs = record no_runs { code = some run_1 };
}

abbrev world_1 : World
world_1 = record { rows = card_1 ∷ []; sent = []; reported = [] }

abbrev world_2 : World
world_2 = record { rows = card_2 ∷ []; sent = []; reported = [] }

abbrev item_1 : WorkItemRow
item_1 = record {
  correlation_key = codes "t1";
  tenant_id = team;
  title = none;
  pfactory = none;
  aifactory = some (record blank { status = some (codes "failed") });
  tfactory = none;
  timeline = [];
  updated_at = 450;
}

abbrev item_2 : WorkItemRow
item_2 = record item_1 { aifactory = some (record blank { status = some (codes "done") }) }

abbrev beat : CompletionEvent
beat = record {
  id = none;
  correlation_key = codes "t1";
  service = aifactory;
  task_id = codes "t1";
  status = codes "progress";
  phase = some (codes "worker_progress");
  updated_at = 460;
  usage = none;
  worker = some worker_1;
  annotations = λ a. none;
}

result_1 : Dispatch × World
result_1 = press (dispatch_stage site card_1 code world_1)
  where
    press : Result Dispatch × World → Dispatch × World
    press (ok d, w) = (d, w)
    press (raise e, w) = (Dispatch.not_configured, w)

press_twice_example :
    (card' : CardRow) × Holds site result_1.1 card'
    × (card'.card_key ≡ codes "FCT-1")
    × (dispatch_stage site card' code result_1.1
        ≡ (second_reply site code (site.target_of card'), result_1.1))
unfolding get dispatch_stage clone_url prepare_stage execute_action step_result update result_1
    is_sent
press_twice_example = press_twice site world_1 result_1.1 card_1 code result_1.0 refl refl refl

correlation_key_once_example :
    (card' : CardRow) × (get
        (some team)
        (codes "FCT-1")
        (dispatch_stage site card_2 plan world_2).1.rows
      ≡ some card')
    × (card'.correlation_key ≡ some (codes "t1"))
unfolding get
correlation_key_once_example =
    correlation_key_once (some team) (codes "FCT-1") world_2
      (dispatch_stage site card_2 plan world_2).1 card_2 b't' (codes "1") refl refl
      (call site card_2 start refl refl refl (pressed plan))

card_3 : CardRow
card_3 = judged (apply_status site item_2 world_2).0
  where
    judged : Result WriteBack → CardRow
    judged (ok (written (some new))) = new
    judged _ = card_2

world_2-IsIndexed : IsIndexed world_2.rows
unfolding IsIndexed
world_2-IsIndexed = (refl, tt)

apply_status_done_example :
    Holds site (apply_status site item_2 world_2).1 card_3
    × (pending_stages card_3 ≡ [])
    × (s : Service) × IsVerdict item_2 s
unfolding apply_status is_failure_or_stuck is_failed matches tokens split_by lower strip
    is_separator is_stuck is_done update card_3
apply_status_done_example =
    apply_status_done site team refl world_2 (apply_status site item_2 world_2).1 item_2 card_3
      world_2-IsIndexed refl refl

heartbeat_settles_stale_example :
    (card' : CardRow) × (rows : List CardRow) × (settle site card_2
        (thread_row 470 beat beat.worker item_1)
        world_2
      ≡ (ok card', with_rows world_2 rows))
    × (stage_status card' code ≡ some failed)
unfolding get is_failure_or_stuck is_failed matches tokens split_by lower strip is_separator
    is_worker_progress_event
heartbeat_settles_stale_example =
    heartbeat_settles_stale site world_2 card_2 code 470 beat item_1 refl refl refl refl refl

brief_carries_example :
    (brief card_1 ≢ [])
    × (body_text card_1 ≢ [] → Infix (body_text card_1) (brief card_1))
    × (starts_with_hash (body_text card_1) ≡ false
        → Infix (codes "# " ++ card_1.title) (brief card_1))
    × ((front back : List Text) (ac : Text)
        → card_1.acceptance_criteria ≡ front ++ ac ∷ back
        → has_own_criteria (body_text card_1) ≡ false
        → Infix (codes "- " ++ ac) (brief card_1))
brief_carries_example = brief_carries card_1
