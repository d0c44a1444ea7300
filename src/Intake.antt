-- ===== src/Intake.antt =====
-- Cards on their way into the factory: apps/backend/cfactory/card_intake.py. The rows of the cards, the
-- requests sent and the calls of `on_dispatch` are the state; the clock and the git target of a
-- card are arguments.
pub mod Stages
pub mod Brief
pub mod Prepare
pub mod Dispatching
pub mod Writeback
pub mod Held
pub mod Presses
pub mod Once
pub mod Verdicts
pub mod Calls
pub mod Stale
pub mod Carried
mod Examples
use cfactory.Prelude.{ℕ, Bool, Option, List, Text}
use cfactory.Prelude.Results.{Result}
use cfactory.WorkItem.Table.{Tenant}
use cfactory.Actions.{Settings, Request, Web, ActionResult}
use cfactory.Cards.{CardRow}

-- `Stage`
pub data Stage : Type 0 where
  plan code test : Stage

-- The codes of `StageRefusal`
pub data Refusal : Type 0 where
  no_tier stage_already_running no_build_to_verify no_intake_project : Refusal

-- The warnings of `stage_warnings`
pub data Warning : Type 0 where
  plan_skipped tier_override : Warning

-- The payload for the door of each stage, less its constants. A key whose value is `none` is left out.
pub data Payload : Type 0 where
  to_plan : (title text : Text) (repo : Option Text) → Payload
  to_code :
      (project_id title body : Text) (label : Text) (number : Option ℕ) (repo : Option Text)
      → Payload
  to_test : (project_id spec_id spec_text : Text) (git_url repo : Option Text) → Payload

-- The fields of `GitTarget` that are read
pub record GitTarget : Type 0 where
  pub provider : Text
  pub base_url : Text
  pub project : Option Text
  pub aifactory_project_id : Option Text

-- The shapes that a dispatch returns
pub data Dispatch : Type 0 where
  already_dispatched : Stage → Dispatch
  already_complete : Stage → Dispatch
  not_configured : Dispatch
  refused : Refusal → Stage → Dispatch
  failed_to_send : Stage → ActionResult → Dispatch
  dispatched_to : (stage : Stage) (correlation_key : Text) → ActionResult → Dispatch
  warned : Dispatch → List Warning → Dispatch
  in_sequence : List Stage → Dispatch → Dispatch
  sequence_complete : Dispatch

-- What a call reads and writes: the cards, all requests so far, and the calls of `on_dispatch`
pub record World : Type 0 where
  pub rows : List CardRow
  pub sent : List (Request Payload)
  pub reported : List (Text × Dispatch)

-- What the calls take from their surroundings: the store's tenant, the clock of the call, the settings, the
-- client, and `git_target_for_card`
pub record Site : Type 0 where
  pub tenant : Tenant
  pub now : ℕ
  pub settings : Settings
  pub web : Web Payload
  pub target_of : CardRow → Result GitTarget
