-- ===== src/Intake/Stale.antt =====
-- A stage that is dispatched again while its work item still reads as failed: `_settle` of
-- apps/backend/cfactory/card_intake.py, on what a heartbeat leaves of the item.
use cfactory.Prelude.{
  ℕ, ◌≡◌, refl, ap, ◌∙◌, true, false, not, Option, some, List, [], ◌∷◌, ◌++◌, Text, if_intro,
  truthy, if◌then◌else◌,
}
use cfactory.Prelude.Results.{ok}
use cfactory.Status.{is_failure_or_stuck, is_done}
use cfactory.WorkItem.{CompletionEvent, WorkItemRow}
use cfactory.WorkItem.Ingest.{thread_row}
use cfactory.WorkItem.Slices.{is_worker_progress_event}
use cfactory.WorkItem.Series.{heartbeat_keeps}
use cfactory.Cards.{CardRow, StageRun, StageRuns, dispatched, failed}
use cfactory.Cards.Board.{apply_changes}
use cfactory.Intake.{Stage, plan, code, test, World, Site}
use cfactory.Intake.Stages.{
  sequence, stage_service, same_stage, stage_status, stage_is, run_of, status_of_run, RunUpdates,
  merge_runs,
}
use cfactory.Intake.Dispatching.{with_rows}
use cfactory.Intake.Writeback.{
  status_at, broken_run, settled_run, settle_update, settle_updates, write_if_any, settle,
}
use cfactory.Intake.Held.{Holds, write_runs_held, card_with_runs}

merge-append :
    (a b : RunUpdates) (runs : StageRuns)
    → merge_runs (a ++ b) runs ≡ merge_runs b (merge_runs a runs)
unfolding merge_runs
merge-append [] b runs = refl
merge-append ((stage, write) ∷ a) b runs = merge-append a b _

-- The update of one stage leaves the others.
settle_update_other :
    (s t : Stage) (status : Option Text) (runs : StageRuns)
    → same_stage s t ≡ false
    → run_of t (merge_runs (settle_update s status) runs) ≡ run_of t runs
unfolding settle_update merge_runs
settle_update_other s t status runs apart =
    if_intro (λ (u : RunUpdates). run_of t (merge_runs u runs) ≡ run_of t runs)
      (not (truthy status)) (λ e. refl)
      (λ e.
        if_intro (λ (u : RunUpdates). run_of t (merge_runs u runs) ≡ run_of t runs)
          (is_failure_or_stuck status) (λ f. one s t (broken_run status) apart)
          (λ f.
            if_intro (λ (u : RunUpdates). run_of t (merge_runs u runs) ≡ run_of t runs)
              (is_done status) (λ d. one s t (settled_run status) apart) (λ d. refl)))
  where
    one :
        (s t : Stage) (write : StageRun → StageRun)
        → same_stage s t ≡ false
        → run_of t (merge_runs ((s, write) ∷ []) runs) ≡ run_of t runs
    one plan plan write e = absurd cc
    one plan code write e = refl
    one plan test write e = refl
    one code plan write e = refl
    one code code write e = absurd cc
    one code test write e = refl
    one test plan write e = refl
    one test code write e = refl
    one test test write e = absurd cc

module _ (card : CardRow) (item : WorkItemRow) where
  update_of : Stage → RunUpdates
  update_of s =
      if stage_is card dispatched s then settle_update s (status_at item (stage_service s)) else []

  update_of_other :
      (s t : Stage) (runs : StageRuns)
      → same_stage s t ≡ false
      → run_of t (merge_runs (update_of s) runs) ≡ run_of t runs
  unfolding merge_runs update_of
  update_of_other s t runs apart =
      if_intro (λ (u : RunUpdates). run_of t (merge_runs u runs) ≡ run_of t runs)
        (stage_is card dispatched s)
        (λ running. settle_update_other s t (status_at item (stage_service s)) runs apart)
        (λ other. refl)

  -- A stage in flight whose service reads as failed is recorded as failed.
  update_of_own :
      (s : Stage) (runs : StageRuns)
      → stage_status card s ≡ some dispatched
      → truthy (status_at item (stage_service s)) ≡ true
      → is_failure_or_stuck (status_at item (stage_service s)) ≡ true
      → status_of_run (run_of s (merge_runs (update_of s) runs)) ≡ some failed
  unfolding update_of settle_update stage_is merge_runs
  update_of_own plan runs running set fails = rw running (rw set (rw fails refl))
  update_of_own code runs running set fails = rw running (rw set (rw fails refl))
  update_of_own test runs running set fails = rw running (rw set (rw fails refl))

  split_updates :
      (runs : StageRuns)
      → merge_runs (settle_updates card item sequence) runs
        ≡ merge_runs
            (update_of test)
            (merge_runs (update_of code) (merge_runs (update_of plan) runs))
  unfolding settle_updates update_of merge_runs
  split_updates runs =
      merge-append (update_of plan) (update_of code ++ (update_of test ++ [])) runs
      ∙ (merge-append (update_of code) (update_of test ++ []) (merge_runs (update_of plan) runs)
          ∙ merge-append (update_of test) []
              (merge_runs (update_of code) (merge_runs (update_of plan) runs)))

  settled_status :
      (s : Stage)
      → stage_status card s ≡ some dispatched
      → truthy (status_at item (stage_service s)) ≡ true
      → is_failure_or_stuck (status_at item (stage_service s)) ≡ true
      → status_of_run (run_of s (merge_runs (settle_updates card item sequence) card.stage_runs))
        ≡ some failed
  settled_status plan running set fails =
      ap (λ r. status_of_run (run_of plan r)) (split_updates card.stage_runs)
      ∙ (ap status_of_run (update_of_other test plan _ refl)
          ∙ (ap status_of_run (update_of_other code plan _ refl)
              ∙ update_of_own plan card.stage_runs running set fails))
  settled_status code running set fails =
      ap (λ r. status_of_run (run_of code r)) (split_updates card.stage_runs)
      ∙ (ap status_of_run (update_of_other test code _ refl)
          ∙ update_of_own code _ running set fails)
  settled_status test running set fails =
      ap (λ r. status_of_run (run_of test r)) (split_updates card.stage_runs)
      ∙ update_of_own test _ running set fails

  -- Settling writes the records of the settled stages.
  settle_runs :
      (site : Site) (w : World)
      → Holds site w card
      → (card' : CardRow) × (rows : List CardRow) × (settle site card item w
          ≡ (ok card', with_rows w rows))
        × (card'.stage_runs ≡ merge_runs (settle_updates card item sequence) card.stage_runs)
  unfolding settle apply_changes
  settle_runs site w held = by_updates (settle_updates card item sequence)
    where
      by_updates :
          (updates : RunUpdates)
          → (card' : CardRow) × (rows : List CardRow) × (write_if_any site card updates w
              ≡ (ok card', with_rows w rows))
            × (card'.stage_runs ≡ merge_runs updates card.stage_runs)
      by_updates [] = (card, w.rows, refl, unfold merge_runs in refl)
      by_updates (u ∷ updates) =
          let (rows, writes, holds) = write_runs_held site w card (u ∷ updates) held in
          (card_with_runs site card (u ∷ updates), rows, writes, refl)

-- A stage that was dispatched again is taken for failed by the failure of the run before it: while the
-- work item still reads as failed for the stage's service, a heartbeat, which leaves that status, makes
-- the write-back record the stage in flight as failed, whenever it was dispatched.
pub heartbeat_settles_stale :
    (site : Site) (w : World) (card : CardRow) (stage : Stage) (clock : ℕ) (event : CompletionEvent)
    (item : WorkItemRow)
    → Holds site w card
    → stage_status card stage ≡ some dispatched
    → truthy (status_at item (stage_service stage)) ≡ true
    → is_failure_or_stuck (status_at item (stage_service stage)) ≡ true
    → is_worker_progress_event event ≡ true
    → (card' : CardRow) × (rows : List CardRow) × (settle site card
          (thread_row clock event event.worker item)
          w
        ≡ (ok card', with_rows w rows))
      × (stage_status card' stage ≡ some failed)
heartbeat_settles_stale site w card stage clock event item held running set fails beats =
    let kept : status_at item (stage_service stage)
        ≡ status_at (thread_row clock event event.worker item) (stage_service stage) =
      ap (λ x. x.status) (heartbeat_keeps clock event (stage_service stage) item beats).2.rest in
    let (card', rows, settles, runs) =
      settle_runs card (thread_row clock event event.worker item) site w held in
    (
      card',
      rows,
      settles,
      ap (λ r. status_of_run (run_of stage r)) runs
          ∙ settled_status card (thread_row clock event event.worker item) stage running
              (rw (← kept) set) (rw (← kept) fails),
    )
