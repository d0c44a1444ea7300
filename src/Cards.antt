-- ===== src/Cards.antt =====
-- The data of the planning cards: the row class and the request bodies of
-- apps/backend/cfactory/cards.py, and the record of a stage that
-- apps/backend/cfactory/card_intake.py keeps on a card. Times are in microseconds.
pub mod Keys
pub mod Board
pub mod Numbers
pub mod Fresh
pub mod Indexed
pub mod Found
pub mod Spec
pub mod Calls
pub mod Refine
pub mod Tombstones
pub mod Lease
mod Examples
use cfactory.Prelude.{Bool, false, ℕ, Option, none, some, List, [], Text, codes}

-- `CardStatus`
pub data CardStatus : Type 0 where
  backlog ready in_progress blocked done : CardStatus

-- `CardTier`
pub data CardTier : Type 0 where
  low medium hard : CardTier

-- The states of a stage record: `QUEUED`, `DISPATCHED`, `DONE`, `FAILED`
pub data RunStatus : Type 0 where
  queued dispatched done failed : RunStatus

-- One entry of `stage_runs`. A field is `none` where the key is missing or `None`.
pub record StageRun : Type 0 where
  pub service : Option Text
  pub status : Option RunStatus
  pub dispatched_at : Option ℕ
  pub ref : Option Text
  pub detail : Option Text

-- `stage_runs`: the entries under "plan", "code" and "test", the only names that are written
pub record StageRuns : Type 0 where
  pub plan : Option StageRun
  pub code : Option StageRun
  pub test : Option StageRun

abbrev pub no_runs : StageRuns
no_runs = record { plan = none; code = none; test = none }

-- `CardRow`, which `Card` shows field by field
pub record CardRow : Type 0 where
  pub card_key : Text
  pub tenant_id : Text
  pub title : Text
  pub description : Option Text
  pub acceptance_criteria : List Text
  pub status : CardStatus
  pub priority : ℕ
  pub tier : Option CardTier
  pub assignee : Option Text
  pub milestone : Option Text
  pub correlation_key : Option Text
  pub stage_runs : StageRuns
  pub issue_ref : Option Text
  pub repository_id : Option ℕ
  pub issue_state : Option Text
  pub labels : List Text
  pub github_sync_error : Option Text
  pub comments_synced_at : Option ℕ
  pub deleted_at : Option ℕ
  pub created_at : ℕ
  pub updated_at : ℕ

-- `CardCreate`
pub record CardCreate : Type 0 where
  pub card_key : Option Text
  pub title : Text
  pub description : Option Text
  pub acceptance_criteria : List Text
  pub status : CardStatus
  pub priority : ℕ
  pub tier : Option CardTier
  pub assignee : Option Text
  pub milestone : Option Text
  pub correlation_key : Option Text
  pub issue_ref : Option Text
  pub repository_id : Option ℕ

-- The `changes` of an update: `none` where the field is absent. The fields of `CardUpdate`, then those
-- that the program itself writes.
pub record Changes : Type 0 where
  pub title : Option Text
  pub description : Option (Option Text)
  pub acceptance_criteria : Option (List Text)
  pub status : Option CardStatus
  pub priority : Option ℕ
  pub tier : Option (Option CardTier)
  pub assignee : Option (Option Text)
  pub milestone : Option (Option Text)
  pub correlation_key : Option (Option Text)
  pub issue_ref : Option (Option Text)
  pub repository_id : Option (Option ℕ)
  pub stage_runs : Option StageRuns
  pub issue_state : Option (Option Text)
  pub labels : Option (List Text)
  pub github_sync_error : Option (Option Text)
  -- Whether an explicit null is sent for a column that takes none
  pub null_refused : Bool

abbrev pub no_changes : Changes
no_changes = record {
  title = none;
  description = none;
  acceptance_criteria = none;
  status = none;
  priority = none;
  tier = none;
  assignee = none;
  milestone = none;
  correlation_key = none;
  issue_ref = none;
  repository_id = none;
  stage_runs = none;
  issue_state = none;
  labels = none;
  github_sync_error = none;
  null_refused = false;
}
