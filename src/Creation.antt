-- ===== src/Creation.antt =====
-- app/services/workflow_service.py: `WorkflowService.create_workflow`, on what the schemas of
-- app/schemas/workflow.py accept. Names of steps and descriptions are left out.
pub mod Schema
pub mod Admission
pub mod Rows
pub mod Chain
mod Tests
use workflow_automation_plat.Common.{
  ℕ, suc, String, Bool, true, false, Option, none, some, List, [], ◌∷◌, ◌++◌, ◌==◌, if◌then◌else◌,
  any, str_eq, ◌&&◌,
}
use workflow_automation_plat.Js.{Fields}
use workflow_automation_plat.Engine.Process.{Workflow, WorkflowStep, StepTransition, Catalog}

pub record StepIn : Type 0 where
  pub step_order : ℕ
  pub sla_hours : ℕ
  pub required_role_id : Option String
  pub required_permission_id : Option String

pub record TransitionIn : Type 0 where
  pub from_step_order : ℕ
  pub to_step_order : Option ℕ
  pub outcome : String
  pub condition_config : Fields

pub record WorkflowIn : Type 0 where
  pub name : String
  pub steps : List StepIn
  pub transitions : List TransitionIn

-- The loop over the steps; `ids i` is the identifier that the row at the index `i` gets.
unfoldable pub create_steps : (ℕ → ℕ) → ℕ → ℕ → List StepIn → List WorkflowStep
create_steps ids workflow_id i [] = []
create_steps ids workflow_id i (s ∷ steps) =
    record {
      id = ids i;
      workflow_id = workflow_id;
      step_order = s.step_order;
      sla_hours = s.sla_hours;
      required_role_id = s.required_role_id;
      required_permission_id = s.required_permission_id;
    }
    ∷ create_steps ids workflow_id (suc i) steps

-- `steps_map.get(order)`: a later step of the same order has replaced an earlier one.
unfoldable pub step_at : ℕ → List WorkflowStep → Option WorkflowStep
step_at order [] = none
step_at order (s ∷ rows) =
    let here = if s.step_order == order then some s else none in
    elim (step_at order rows) [ none ↦ here | some t ↦ some t ]

abbrev pub target : Option ℕ → List WorkflowStep → Option WorkflowStep
target none rows = none
target (some order) rows = step_at order rows

-- One round of the loop over the transitions, which passes one from an unknown order over.
abbrev pub create_transition :
    Option WorkflowStep → TransitionIn → List WorkflowStep → List StepTransition
create_transition none t rows = []
create_transition (some from) t rows =
    record {
      from_step_id = from.id;
      to_step = target t.to_step_order rows;
      outcome = t.outcome;
      condition_config = t.condition_config;
    }
    ∷ []

unfoldable pub create_transitions : List WorkflowStep → List TransitionIn → List StepTransition
unfolding step_at
create_transitions rows [] = []
create_transitions rows (t ∷ ts) =
    create_transition (step_at t.from_step_order rows) t rows ++ create_transitions rows ts

-- The tables with the rows that `create_workflow` adds.
unfoldable pub add_workflow : (ℕ → ℕ) → ℕ → WorkflowIn → Catalog → Catalog
unfolding create_steps create_transitions
add_workflow ids workflow_id input catalog =
    let rows = create_steps ids workflow_id 0 input.steps in
    record catalog {
      workflows =
          catalog.workflows
          ++ record { id = workflow_id; name = input.name; is_active = true } ∷ [];
      steps = catalog.steps ++ rows;
      transitions = catalog.transitions ++ create_transitions rows input.transitions;
    }

-- The column `name` is unique.
abbrev pub is_named : String → Workflow → Bool
is_named name w = str_eq w.name name

-- The columns of the required role and permission refer to rows of their tables.
abbrev pub is_listed : List String → Option String → Bool
is_listed ids none = true
is_listed ids (some id) = any (λ i. str_eq i id) ids

abbrev pub has_references : Catalog → List StepIn → Bool
has_references catalog [] = true
has_references catalog (s ∷ steps) =
    is_listed catalog.roles s.required_role_id
    && is_listed catalog.permissions s.required_permission_id
    && has_references catalog steps

-- `create_workflow`: `none` is the error of a flush that the database refuses, for a name that is
-- taken, or for a role or a permission that there is not.
unfoldable pub create_workflow : (ℕ → ℕ) → ℕ → WorkflowIn → Catalog → Option Catalog
unfolding add_workflow
create_workflow ids workflow_id input catalog =
    if any (is_named input.name) catalog.workflows
    then none
    else if has_references catalog input.steps
    then some (add_workflow ids workflow_id input catalog)
    else none
