-- ===== src/Constructor/Nodes.antt =====
-- The page's data, the management of steps, and the transitions that it derives from them.
use workflow_automation_plat.Common.{
  ℕ, suc, ◌+◌, String, Bool, false, Option, none, some, List, [], ◌∷◌, ◌++◌, length, remove_at,
  modify_at, concat, decimal,
}

-- Roles and permissions, as the server lists them.
pub record Role : Type 0 where
  pub id : String
  pub name : String

pub record Permission : Type 0 where
  pub id : String
  pub name : String

pub record Step : Type 0 where
  pub temp_id : String
  pub name : String
  pub description : String
  pub step_order : ℕ
  pub sla_hours : ℕ
  pub required_role_id : Option String
  pub required_permission_id : Option String
  pub is_conditional : Bool

-- A missing target ends the workflow.
pub record Transition : Type 0 where
  pub from_step_temp_id : String
  pub to_step_temp_id : Option String
  pub outcome : String

-- `addStep`; the identifier is the one drawn by `Math.random`.
unfoldable pub new_step : String → ℕ → Step
new_step id n = record {
  temp_id = id;
  name = concat "Step " (decimal (n + 1));
  description = "";
  step_order = n + 1;
  sla_hours = 24;
  required_role_id = none;
  required_permission_id = none;
  is_conditional = false;
}

unfoldable pub add_step : String → List Step → List Step
unfolding new_step
add_step id steps = steps ++ new_step id (length steps) ∷ []

-- `newSteps.forEach((s, i) => s.step_order = i + 1)`, from the index `i` on.
unfoldable pub reorder : ℕ → List Step → List Step
reorder i [] = []
reorder i (s ∷ steps) = record s { step_order = i + 1 } ∷ reorder (suc i) steps

unfoldable pub remove_step : ℕ → List Step → List Step
unfolding reorder
remove_step index steps = reorder 0 (remove_at index steps)

-- A field of a step with its new value: the arguments `field` and `value` of `updateStep`.
pub data Edit : Type 0 where
  temp_id name description : String → Edit
  step_order sla_hours : ℕ → Edit
  required_role_id required_permission_id : Option String → Edit
  is_conditional : Bool → Edit

abbrev pub apply_edit : Edit → Step → Step
apply_edit (Edit.temp_id v) s = record s { temp_id = v }
apply_edit (Edit.name v) s = record s { name = v }
apply_edit (Edit.description v) s = record s { description = v }
apply_edit (Edit.step_order v) s = record s { step_order = v }
apply_edit (Edit.sla_hours v) s = record s { sla_hours = v }
apply_edit (Edit.required_role_id v) s = record s { required_role_id = v }
apply_edit (Edit.required_permission_id v) s = record s { required_permission_id = v }
apply_edit (Edit.is_conditional v) s = record s { is_conditional = v }

-- `updateStep` at an index in range, the only kind that the page's controls send.
unfoldable pub update_step : ℕ → Edit → List Step → List Step
update_step index e steps = modify_at index (apply_edit e) steps

-- `next?.tempId`, where `next` follows the current step.
abbrev pub next_temp_id : List Step → Option String
next_temp_id [] = none
next_temp_id (next ∷ _) = some next.temp_id

-- `generateDefaultTransitions`: the loop, with the steps after the current one as its rest.
unfoldable pub default_transitions : List Step → List Transition
default_transitions [] = []
default_transitions (current ∷ rest) =
    record {
      from_step_temp_id = current.temp_id;
      to_step_temp_id = next_temp_id rest;
      outcome = "APPROVED";
    }
    ∷ record { from_step_temp_id = current.temp_id; to_step_temp_id = none; outcome = "REJECTED" }
    ∷ default_transitions rest
