-- ===== src/Journey.antt =====
-- What a workflow promises: its steps are decided in turn, each approval leads to the next, the
-- last to APPROVED, and a rejection at once to REJECTED. The engine of app/services is shown to
-- keep the promise.
pub mod Refinement
pub mod Completion
pub mod Delivery
mod Tests
use workflow_automation_plat.Common.{
  ℕ, zero, suc, ◌+◌, String, Bool, Option, none, some, List, [], ◌∷◌, ltb, if◌then◌else◌,
}
use workflow_automation_plat.Js.{Fields}
use workflow_automation_plat.Engine.Conditions.{Python}
use workflow_automation_plat.Engine.Process.{
  Catalog, WorkflowStep, User, RequestStep, Instance, Outcome, raised, done, and_then,
}
use workflow_automation_plat.Engine.Step.{process_step}

-- Where a request stands: at the step of the given index, or at an end.
pub data Stage : Type 0 where
  at_step : ℕ → Stage
  ended_approved ended_rejected : Stage

pub data Decision : Type 0 where
  approval rejection : Decision

-- One decision on a request for a workflow of `n` steps; an ended request takes none.
abbrev pub advance : ℕ → Decision → Stage → Option Stage
advance n approval (at_step k) = some (if ltb (suc k) n then at_step (suc k) else ended_approved)
advance n rejection (at_step k) = some ended_rejected
advance n d ended_approved = none
advance n d ended_rejected = none

abbrev pub bind : Option Stage → (Stage → Option Stage) → Option Stage
bind none k = none
bind (some s) k = k s

unfoldable pub advance_all : ℕ → List Decision → Stage → Option Stage
advance_all n [] s = some s
advance_all n (d ∷ ds) s = bind (advance n d s) (advance_all n ds)

-- A decision as it is made: when, by whom, and with which context.
pub record Act : Type 0 where
  pub now : ℕ
  pub user : User
  pub decision : Decision
  pub context : Fields

abbrev pub outcome_of : Decision → String
outcome_of approval = "APPROVED"
outcome_of rejection = "REJECTED"

abbrev pub decisions : List Act → List Decision
decisions [] = []
decisions (a ∷ acts) = a.decision ∷ decisions acts

-- The calls of `process_step`, each on the request that the one before it left.
unfoldable pub process_all : Python → Catalog → List Act → Instance → Outcome
process_all py catalog [] r = done r
process_all py catalog (a ∷ acts) r =
    and_then (process_step py catalog a.now a.user (outcome_of a.decision) a.context (some r))
      (process_all py catalog acts)
