-- ===== src/WorkItem/Examples.antt =====
-- The theorems on store.py at concrete tables, events and polls.
use cfactory.Prelude.{◌≡◌, ◌≢◌, refl, true, false, none, some, [], ◌∷◌, codes, length}
use cfactory.Prelude.Dicts.{Dict, dict_values}
use cfactory.Prelude.Results.{ok}
use cfactory.WorkItem.{
  pfactory, aifactory, verification, CompletionEvent, ServiceState, WorkItemRow, blank,
}
use cfactory.WorkItem.Usage.{Worker, TokenUsage, rollup_by}
use cfactory.WorkItem.Table.{
  Tenant, delete, get_row, insert_row, key_taken, selects, visible, put_row,
}
use cfactory.WorkItem.Slices.{already_recorded, is_worker_progress_event, is_worker_event}
use cfactory.WorkItem.Ingest.{apply_to, thread_row, new_item, upsert_from_event}
use cfactory.WorkItem.Snapshots.{Snapshot, leaves_row, poll_row}
use cfactory.WorkItem.Redelivery.{upsert_again, worker_again}
use cfactory.WorkItem.Conflicts.{upsert-late}
use cfactory.WorkItem.Isolation.{
  foreign_rows, foreign_rows-Changes, ingest, remove, start, then_change,
}
use cfactory.WorkItem.Unique.{IsKeyed, IsKeyed-Changes}
use cfactory.WorkItem.Totals.{total, worker_total, rollup_by_totals}
use cfactory.WorkItem.Kept.{slice}
use cfactory.WorkItem.Annotations.{KeepsUsage, usage_kept, annotations_after}
use cfactory.WorkItem.Polls.{poll_again}
use cfactory.WorkItem.Series.{IsCapped, IsCapped-writes}

abbrev team : Tenant
team = some (codes "acme")

team_name : team ≢ some []
team_name e = cc

abbrev worker_1 : Worker
worker_1 = record {
  worker_id = codes "w1";
  subtask_id = none;
  agent_phase = none;
  provider = some (codes "local");
  model = none;
  input_tokens = 30;
  output_tokens = 12;
  total_tokens = 42;
  cost_usd = 7;
  duration_ms = 900;
  billing_mode = none;
  elapsed_ms = 1200;
}

abbrev usage_1 : TokenUsage
usage_1 = record {
  input_tokens = 30;
  output_tokens = 12;
  total_tokens = 42;
  cost_usd = 7;
  model = none;
  workers = none;
  by_provider = none;
  by_model = none;
  budget = none;
}

abbrev done_event : CompletionEvent
done_event = record {
  id = some (codes "ev-1");
  correlation_key = codes "repo#1";
  service = pfactory;
  task_id = codes "t1";
  status = codes "done";
  phase = none;
  updated_at = 5000;
  usage = some usage_1;
  worker = none;
  annotations = λ a. none;
}

abbrev beat_event : CompletionEvent
beat_event = record done_event {
  id = none;
  status = codes "running";
  phase = some (codes "worker_progress");
  worker = some worker_1;
}

-- A status event of the service whose slice has the block
abbrev code_event : CompletionEvent
code_event = record done_event { correlation_key = codes "repo#2"; service = aifactory }

-- An item in code, with a verification block on its slice
abbrev coding : ServiceState
coding = record blank {
  task_id = some (codes "t2");
  status = some (codes "in_progress");
  phase = some (codes "coding");
  usage = some usage_1;
  extra = λ a. elim a [ verification ↦ some (codes "passed") | _ ↦ none ];
}

abbrev coding_row : WorkItemRow
coding_row = record {
  correlation_key = codes "repo#2";
  tenant_id = codes "acme";
  title = none;
  pfactory = none;
  aifactory = some coding;
  tfactory = none;
  timeline = [];
  updated_at = 3;
}

abbrev foreign_row : WorkItemRow
foreign_row = record coding_row { correlation_key = codes "repo#1"; tenant_id = codes "other" }

abbrev own_row : WorkItemRow
own_row = record coding_row { correlation_key = codes "repo#1" }

abbrev poll_1 : Snapshot
poll_1 = record {
  correlation_key = codes "repo#2";
  service = aifactory;
  state = record blank {
    task_id = some (codes "t2");
    status = some (codes "in_progress");
    phase = some (codes "coding");
  };
  title = none;
  newest = false;
}

abbrev review_poll : Snapshot
review_poll = record poll_1 {
  state = record blank { task_id = some (codes "t2"); status = some (codes "human_review") };
  newest = true;
}

abbrev first_row : WorkItemRow
first_row = thread_row 5 done_event none (new_item team done_event 5)

upsert_again_example :
    upsert_from_event team 9 done_event (first_row ∷ []) (first_row ∷ [])
    ≡ ok (first_row ∷ [], (first_row, false))
unfolding is_worker_progress_event upsert_from_event get_row insert_row
upsert_again_example =
    upsert_again team 5 done_event team_name refl refl 9 [] (first_row ∷ []) first_row true refl

-- A worker's report, and a second one with other totals
abbrev worker_event : CompletionEvent
worker_event = record done_event {
  id = none;
  phase = some (codes "worker");
  status = codes "worker_done";
  worker = some worker_1;
}

abbrev second_report : CompletionEvent
second_report = record worker_event { worker = some (record worker_1 { total_tokens = 99 }) }

abbrev worker_row : WorkItemRow
worker_row = thread_row 5 worker_event (some worker_1) (new_item team worker_event 5)

worker_again_example :
    upsert_from_event team 9 second_report (worker_row ∷ []) (worker_row ∷ [])
    ≡ ok (worker_row ∷ [], (worker_row, false))
unfolding is_worker_progress_event is_worker_event upsert_from_event get_row insert_row
worker_again_example =
    worker_again team 5 worker_event team_name refl refl second_report worker_1
      (record worker_1 { total_tokens = 99 }) 9 [] (worker_row ∷ []) worker_row true
      (refl, refl, refl) (refl, refl, refl) refl (refl, refl, refl) refl

upsert-late_example :
    upsert_from_event team 5 done_event [] (own_row ∷ [])
    ≡ upsert_from_event team 5 done_event (own_row ∷ []) (own_row ∷ [])
unfolding get_row
upsert-late_example = upsert-late team 5 done_event [] (own_row ∷ []) refl

abbrev coded_row : WorkItemRow
coded_row = thread_row 5 code_event none coding_row

foreign_rows-Changes_example :
    foreign_rows team (foreign_row ∷ []) ≡ foreign_rows team (foreign_row ∷ coding_row ∷ [])
unfolding delete upsert_from_event get_row apply_to selects visible already_recorded put_row
foreign_rows-Changes_example = foreign_rows-Changes team team_name (
    then_change
      (then_change start
        (ingest {rows' = foreign_row ∷ coded_row ∷ []} 5 code_event coded_row true refl))
      (remove (codes "repo#2")))

IsKeyed-Changes_example : IsKeyed (foreign_row ∷ [])
unfolding delete IsKeyed key_taken
IsKeyed-Changes_example =
    IsKeyed-Changes team {rows = foreign_row ∷ coding_row ∷ []} (refl, (refl, tt))
      (then_change start (remove (codes "repo#2")))

abbrev one_worker : Dict Worker
one_worker = (codes "w1", worker_1) ∷ []

rollup_by_totals_example :
    (total (λ b. b.input_tokens) (rollup_by (λ w. w.provider) one_worker)
      ≡ worker_total (λ w. w.input_tokens) (dict_values one_worker))
    × (total (λ b. b.output_tokens) (rollup_by (λ w. w.provider) one_worker)
        ≡ worker_total (λ w. w.output_tokens) (dict_values one_worker))
    × (total (λ b. b.total_tokens) (rollup_by (λ w. w.provider) one_worker)
        ≡ worker_total (λ w. w.total_tokens) (dict_values one_worker))
    × (total (λ b. b.cost_usd) (rollup_by (λ w. w.provider) one_worker)
        ≡ worker_total (λ w. w.cost_usd) (dict_values one_worker))
    × (total (λ b. b.workers) (rollup_by (λ w. w.provider) one_worker)
        ≡ length (dict_values one_worker))
rollup_by_totals_example = rollup_by_totals (λ w. w.provider) one_worker

usage_kept_example :
    KeepsUsage
      (some usage_1)
      (slice aifactory coding_row)
      (slice aifactory (thread_row 5 done_event none coding_row))
    × KeepsUsage none
        (slice aifactory coding_row)
        (slice aifactory (poll_row 5 review_poll coding_row))
usage_kept_example = usage_kept 5 done_event review_poll aifactory coding_row

annotations_after_example :
    ((slice aifactory (thread_row 5 code_event none coding_row)).extra verification ≡ none)
    × ((slice aifactory (poll_row 5 review_poll coding_row)).extra verification ≡ none)
unfolding is_worker_progress_event leaves_row is_worker_event
annotations_after_example =
    annotations_after 5 code_event review_poll coding_row verification refl refl

poll_again_example :
    poll_row 9 review_poll (poll_row 5 review_poll coding_row) ≡ poll_row 5 review_poll coding_row
poll_again_example = poll_again 5 9 review_poll coding_row

IsCapped-writes_example :
    IsCapped (slice pfactory (thread_row 5 beat_event (some worker_1) coding_row)).worker_progress
    × IsCapped (slice pfactory (poll_row 5 review_poll coding_row)).worker_progress
IsCapped-writes_example = IsCapped-writes 5 beat_event review_poll pfactory coding_row tt tt
