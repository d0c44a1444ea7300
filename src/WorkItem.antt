-- ===== src/WorkItem.antt =====
-- The data of the work item store: apps/backend/cfactory/models.py and the row class of
-- apps/backend/cfactory/store.py. Costs are counted in a smallest unit, times in microseconds.
pub mod Usage
pub mod Slices
pub mod Table
pub mod Rows
pub mod Ingest
pub mod Snapshots
pub mod Reconcile
pub mod Threading
pub mod Redelivery
pub mod Conflicts
pub mod Isolation
pub mod Writes
pub mod Unique
pub mod Totals
pub mod Kept
pub mod Annotations
pub mod Polls
pub mod Heartbeat
pub mod Series
pub mod Sweeps
mod Examples
use cfactory.Prelude.{ℕ, Bool, true, false, Option, none, some, List, [], ◌∷◌, Text, codes}
use cfactory.Prelude.Dicts.{Dict}
use cfactory.WorkItem.Usage.{Worker, Bucket, TokenUsage}

-- `Service`
pub data Service : Type 0 where
  pfactory aifactory tfactory : Service

abbrev pub same_service : Service → Service → Bool
same_service pfactory pfactory = true
same_service aifactory aifactory = true
same_service tfactory tfactory = true
same_service _ _ = false

-- `ProgressPoint`
pub record ProgressPoint : Type 0 where
  pub ts : ℕ
  pub total_tokens : ℕ
  pub cost_usd : ℕ
  pub elapsed_ms : ℕ

-- The blocks of `_ANNOTATION_FIELDS`; their contents belong to the services and are kept as text.
pub data Annotation : Type 0 where
  access verification routing injection_scan dependency_review votes review : Annotation

-- `CompletionEvent`, after its validator has set both timestamps
pub record CompletionEvent : Type 0 where
  pub id : Option Text
  pub correlation_key : Text
  pub service : Service
  pub task_id : Text
  pub status : Text
  pub phase : Option Text
  pub updated_at : ℕ
  pub usage : Option TokenUsage
  pub worker : Option Worker
  pub annotations : Annotation → Option Text

-- `ServiceState`: what a row's column holds for one service
pub record ServiceState : Type 0 where
  pub task_id : Option Text
  pub status : Option Text
  pub phase : Option Text
  pub repo : Option Text
  pub usage : Option TokenUsage
  pub workers : Dict Worker
  pub worker_progress : Dict (List ProgressPoint)
  pub by_provider : Dict Bucket
  pub by_model : Dict Bucket
  pub extra : Annotation → Option Text

-- `ServiceState().model_dump()`, and what `.get` reads of an empty column
abbrev pub blank : ServiceState
blank = record {
  task_id = none;
  status = none;
  phase = none;
  repo = none;
  usage = none;
  workers = [];
  worker_progress = [];
  by_provider = [];
  by_model = [];
  extra = λ a. none;
}

-- `WorkItemRow`. A column is `none` while it holds the empty dict that it starts with.
pub record WorkItemRow : Type 0 where
  pub correlation_key : Text
  pub tenant_id : Text
  pub title : Option Text
  pub pfactory : Option ServiceState
  pub aifactory : Option ServiceState
  pub tfactory : Option ServiceState
  pub timeline : List CompletionEvent
  pub updated_at : ℕ

-- `getattr(row, service.value)`
abbrev pub column : Service → WorkItemRow → Option ServiceState
column pfactory row = row.pfactory
column aifactory row = row.aifactory
column tfactory row = row.tfactory

-- `setattr(row, service.value, state)`
abbrev pub set_column : Service → ServiceState → WorkItemRow → WorkItemRow
set_column pfactory state row = record row { pfactory = some state }
set_column aifactory state row = record row { aifactory = some state }
set_column tfactory state row = record row { tfactory = some state }

-- `getattr(row, service.value) or {}`
abbrev pub or_blank : Option ServiceState → ServiceState
or_blank none = blank
or_blank (some state) = state

abbrev pub default_tenant : Text
default_tenant = codes "default"
