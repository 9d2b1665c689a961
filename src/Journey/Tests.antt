-- ===== src/Journey/Tests.antt =====
-- A workflow of two steps and one that the constructor page submits, and the theorems at them.
use workflow_automation_plat.Common.{
  ℕ, ◌+◌, ◌≡◌, ◌≢◌, refl, arith, true, none, some, List, [], ◌∷◌, All, map, str_eq, if◌then◌else◌,
  decimal,
}
use workflow_automation_plat.Js.{num, end}
use workflow_automation_plat.Constructor.Nodes.{add_step}
use workflow_automation_plat.Constructor.Payload.{Payload}
use workflow_automation_plat.Constructor.Page.{update, submit, post_workflow}
use workflow_automation_plat.Constructor.Samples.{
  plain_host, draw, third_state, third_state-Reaches, submit_offered,
}
use workflow_automation_plat.Creation.{create_workflow, WorkflowIn}
use workflow_automation_plat.Creation.Schema.{Pydantic, read_workflow}
use workflow_automation_plat.Creation.Admission.{step_in_of}
use workflow_automation_plat.Rbac.{check_role, has_role}
use workflow_automation_plat.Server.Store.{Db}
use workflow_automation_plat.Journey.Delivery.{
  MayDecide, IsAccepted, Completes, submission-Completes,
}
use workflow_automation_plat.Engine.Process.{
  User, Catalog, WorkflowStep, StepTransition, Instance, done, start_workflow,
}
use workflow_automation_plat.Engine.Step.{refusal}
use workflow_automation_plat.Creation.{StepIn, create_steps}
use workflow_automation_plat.Journey.{
  at_step, ended_rejected, Decision, approval, rejection, advance_all, Act, process_all,
}
use workflow_automation_plat.Journey.Refinement.{Represents, process_all-Represents}
use workflow_automation_plat.Journey.Completion.{
  stage_after, rows, after, begun, first_row, begun-Represents, after-Follows, approvals_complete,
}
use workflow_automation_plat.Engine.Samples.{plain_python, clerk}

abbrev ids : ℕ → ℕ
ids i = i + 10

abbrev step_in : ℕ → StepIn
step_in n = record {
  step_order = n;
  sla_hours = 24;
  required_role_id = some "clerk";
  required_permission_id = none;
}

abbrev later_steps : List StepIn
later_steps = step_in 2 ∷ []

-- One older transition, from another workflow.
abbrev older : Catalog
older = record {
  workflows = record { id = 1; name = "Older"; is_active = true } ∷ [];
  steps = [];
  transitions =
      record { from_step_id = 3; to_step = none; outcome = "APPROVED"; condition_config = end }
      ∷ [];
  roles = "clerk" ∷ [];
  permissions = [];
}

abbrev act : Decision → Act
act d = record { now = 5; user = clerk; decision = d; context = end }

abbrev two_rows : List WorkflowStep
two_rows = rows plain_python ids 2 "Leave" (step_in 1) later_steps older

abbrev new_catalog : Catalog
new_catalog = after plain_python ids 2 "Leave" (step_in 1) later_steps older

abbrev first_request : Instance
first_request =
    begun 0 2 "u2" end (first_row plain_python ids 2 "Leave" (step_in 1) later_steps older)

clerk_may : All (λ (row : WorkflowStep). refusal plain_python clerk row ≡ none) two_rows
unfolding refusal create_steps
clerk_may = (refl, (refl, tt))

abbrev mixed : List Act
mixed = act approval ∷ act rejection ∷ []

ids_distinct : (i j : ℕ) → ids i ≡ ids j → i ≡ j
ids_distinct i j e = omega arith

ids_unused : All (λ (t : StepTransition). (i : ℕ) → t.from_step_id ≢ ids i) older.transitions
ids_unused = ((λ i e. omega arith), tt)

process_all-Represents_example :
    (r' : Instance) × (process_all plain_python new_catalog mixed first_request ≡ done r')
    × Represents two_rows r' ended_rejected
process_all-Represents_example =
    process_all-Represents plain_python new_catalog two_rows mixed first_request (at_step 0)
      ended_rejected
      (after-Follows plain_python ids 2 "Leave" (step_in 1) later_steps older ids_distinct
        ids_unused (refl, (refl, tt)))
      (clerk_may, (clerk_may, tt))
      (begun-Represents plain_python ids 2 "Leave" (step_in 1) later_steps older 0 "u2" end)
      (unfold advance_all create_steps in refl)

approvals_complete_example :
    (r : Instance) × (r' : Instance) × (start_workflow new_catalog 0 true 2 "u2" end ≡ done r)
    × (process_all plain_python new_catalog (act approval ∷ act approval ∷ []) r ≡ done r')
    × Represents two_rows r' (stage_after 2 2)
approvals_complete_example =
    approvals_complete plain_python ids 2 "Leave" (step_in 1) later_steps older 0 "u2" end
      (act approval ∷ act approval ∷ []) (unfold create_workflow in refl) ids_distinct ids_unused
      ((omega arith, tt), tt) (refl, (refl, tt)) (clerk_may, (clerk_may, tt)) (refl, (refl, tt))
      (omega arith)

abbrev plain_pydantic : Pydantic
plain_pydantic = record {
  len = λ s. if str_eq s "" then 0 else 5;
  to_int = λ v. elim v [ num n ↦ some n | _ ↦ none ];
  is_uuid = λ s. true;
}

abbrev admin : User
admin = record clerk {
  id = "u0";
  roles = record { id = "admin"; name = "admin"; permissions = [] } ∷ [];
}

abbrev older_db : Db
older_db = record { catalog = older; requests = [] }

-- The step of the page asks for no role, so that the clerk may decide on it.
clerk_may_all :
    MayDecide plain_python ids 2 admin older_db 0 "u2" end
      (act approval ∷ [])
      (map step_in_of third_state.workflow_steps)
unfolding refusal create_steps update add_step
clerk_may_all = ((refl, tt), tt)

third_state-IsAccepted :
    IsAccepted plain_python ids 2 admin older_db 0 "u2" end
      (act approval ∷ [])
      third_state.name
      (map step_in_of third_state.workflow_steps)
unfolding check_role has_role update add_step
third_state-IsAccepted = (refl, refl, refl)

submission-Completes_example :
    (p : Payload) × (input : WorkflowIn) × ((update plain_host draw submit third_state).1
      ≡ post_workflow p ∷ [])
    × (read_workflow plain_pydantic p ≡ some input)
    × Completes plain_python ids 2 admin older_db 0 "u2" end (act approval ∷ []) input
unfolding update add_step decimal
submission-Completes_example =
    submission-Completes plain_python ids 2 admin older_db 0 "u2" end (act approval ∷ [])
      plain_pydantic plain_host draw (λ n. refl) third_state-Reaches refl submit_offered refl
      ((refl, omega arith, refl, refl), tt) ids_distinct ids_unused ((omega arith, tt), tt)
      third_state-IsAccepted clerk_may_all (refl, tt) refl
