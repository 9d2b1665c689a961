-- ===== src/Creation/Tests.antt =====
-- The theorems at a workflow of two steps, and at what the constructor page posts.
use workflow_automation_plat.Common.{
  inl, inr, map, if◌then◌else◌, str_eq, String, Option, ℕ, ◌+◌, ◌≡◌, refl, arith, eq_iff, false,
  true, none, some, List, [], ◌∷◌, get_elem?, length,
}
use workflow_automation_plat.Js.{end, Json, num}
use workflow_automation_plat.Constructor.Nodes.{
  update_step, Edit, add_step, Step, default_transitions,
}
use workflow_automation_plat.Constructor.Payload.{wizard_payload}
use workflow_automation_plat.Constructor.Samples.{}
use workflow_automation_plat.Constructor.Payload.{Payload}
use workflow_automation_plat.Constructor.Page.{
  State, continue, edit_node, update, submit, post_workflow,
}
use workflow_automation_plat.Constructor.Reach.{Reaches, act, next}
use workflow_automation_plat.Constructor.Samples.{
  plain_host, draw, step_of, node_state, node_state-Reaches,
}
use workflow_automation_plat.Constructor.View.{view}
use workflow_automation_plat.Ui.{Offers}
use workflow_automation_plat.Creation.Schema.{Pydantic, read_workflow}
use workflow_automation_plat.Creation.Admission.{
  step_in_of, wizard_payload-accepted, submit-refused,
}
use workflow_automation_plat.Engine.Process.{Catalog, WorkflowStep}
use workflow_automation_plat.Engine.Step.{resolve_next}
use workflow_automation_plat.Creation.{
  add_workflow, StepIn, WorkflowIn, create_steps, create_workflow,
}
use workflow_automation_plat.Creation.Chain.{chain_in, create_workflow-chain}
use workflow_automation_plat.Engine.Samples.{plain_python}

abbrev ids : ℕ → ℕ
ids i = i + 10

abbrev step_in : ℕ → StepIn
step_in n = record {
  step_order = n;
  sla_hours = 24;
  required_role_id = none;
  required_permission_id = none;
}

abbrev two_steps : List StepIn
two_steps = step_in 1 ∷ step_in 2 ∷ []

-- One older transition, from another workflow.
abbrev older : Catalog
older = record {
  workflows = record { id = 1; name = "Older"; is_active = true } ∷ [];
  steps = [];
  transitions =
      record { from_step_id = 3; to_step = none; outcome = "APPROVED"; condition_config = end }
      ∷ [];
  roles = "clerk" ∷ [];
  permissions = [];
}

abbrev row : ℕ → ℕ → WorkflowStep
row id n = record {
  id = id;
  workflow_id = 2;
  step_order = n;
  sla_hours = 24;
  required_role_id = none;
  required_permission_id = none;
}

abbrev input : WorkflowIn
input = record { name = "Leave"; steps = two_steps; transitions = chain_in 0 (length two_steps) }

-- The tables after the creation.
abbrev after : Catalog
after = unfold add_workflow in add_workflow ids 2 input older

create_workflow-chain_example :
    (resolve_next plain_python after (some 10) "APPROVED" end
      ≡ get_elem? (create_steps ids 2 0 two_steps) 1)
    × (resolve_next plain_python after (some 10) "REJECTED" end ≡ none)
unfolding create_workflow add_workflow
create_workflow-chain_example =
    create_workflow-chain plain_python ids 2 "Leave" two_steps older end 0 (row 10 1)
      (λ i j e. omega arith) ((λ i e. omega arith), tt) (refl, (refl, tt))
      (unfold create_steps in refl) refl

abbrev int_of : Json → Option ℕ
int_of (num n) = some n
int_of _ = none

abbrev plain_pydantic : Pydantic
plain_pydantic = record {
  len = λ s. if str_eq s "" then 0 else 5;
  to_int = int_of;
  is_uuid = λ s. true;
}

abbrev node : String → String → ℕ → Step
node id name order = record {
  temp_id = id;
  name = name;
  description = "";
  step_order = order;
  sla_hours = 24;
  required_role_id = some "c0ffee";
  required_permission_id = none;
  is_conditional = false;
}

abbrev two_nodes : List Step
two_nodes = node "a" "Check" 1 ∷ node "b" "Sign" 2 ∷ []

wizard_payload-accepted_example :
    read_workflow plain_pydantic
      (wizard_payload "Leave" "" two_nodes (default_transitions two_nodes))
    ≡ some (record { name = "Leave"; steps = map step_in_of two_nodes; transitions = chain_in 0 2 })
wizard_payload-accepted_example =
    wizard_payload-accepted plain_pydantic (λ n. refl) "Leave" "" two_nodes (refl, (refl, tt))
      ((ground (arith, eq_iff "a" "b"), tt), (tt, tt)) refl
      ((refl, omega arith, refl, refl), ((refl, omega arith, refl, refl), tt))

-- The user empties the name of the node before the review.
abbrev unnamed_state : State
unnamed_state = step_of (edit_node 0 (Edit.name "")) node_state

abbrev review_state : State
review_state = step_of continue unnamed_state

unnamed_state-Reaches : Reaches plain_host unnamed_state
unfolding view update add_step
unnamed_state-Reaches = next node_state-Reaches (
    act (record { temp_id = "z1"; replaced = "" }) (edit_node 0 (Edit.name ""))
      (inr (inr (inr (inr (inr (inr (inr (inr (inr (inr (inr (inr (inl ("", refl))))))))))))))
      (ground (arith, eq_iff "k3x9" "z1"), tt))

review_state-Reaches : Reaches plain_host review_state
unfolding view update add_step update_step default_transitions
review_state-Reaches = next unnamed_state-Reaches (
    act (record { temp_id = "z2"; replaced = "" }) continue (ground arith)
      (ground (arith, eq_iff "k3x9" "z2"), tt))

review_offered : Offers (view plain_host review_state) submit
unfolding view update add_step update_step default_transitions
review_offered = ground arith

abbrev node_of : List Step → Step
node_of [] = node "" "" 0
node_of (s ∷ steps) = s

submit-refused_example :
    (p : Payload) × ((update plain_host draw submit review_state).1 ≡ post_workflow p ∷ [])
    × (read_workflow plain_pydantic p ≡ none)
unfolding update add_step update_step default_transitions
submit-refused_example =
    submit-refused plain_pydantic plain_host draw [] [] (node_of review_state.workflow_steps)
      review_state-Reaches (unfold update in refl) review_offered refl refl
