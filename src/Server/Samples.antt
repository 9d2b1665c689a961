-- ===== src/Server/Samples.antt =====
-- A database with a workflow of two steps, and a request at the first.
use workflow_automation_plat.Common.{ℕ, ◌+◌, refl, true, none, some, [], ◌∷◌, IsIn, inl}
use workflow_automation_plat.Engine.Step.{}
use workflow_automation_plat.Creation.{add_workflow, create_workflow}
use workflow_automation_plat.Server.Store.{}
use workflow_automation_plat.Js.{end}
use workflow_automation_plat.Lifecycle.{is_valid_transition}
use workflow_automation_plat.Engine.Process.{
  User, WorkflowStep, RequestStep, pending, start_workflow, start_found, start_step, change_status,
  new_instance,
}
use workflow_automation_plat.Creation.{
  add_workflow, StepIn, WorkflowIn, create_workflow, create_steps,
}
use workflow_automation_plat.Creation.Chain.{chain_in}
use workflow_automation_plat.Server.Store.{Db, start_request, commit_started}
use workflow_automation_plat.Server.Listing.{my_tasks, tasks_of}
use workflow_automation_plat.Server.Invariant.{
  empty_db, Reaches, start, next, workflow_created, started,
}
use workflow_automation_plat.Server.Ledger.{}
use workflow_automation_plat.Rbac.{check_role, has_role}
use workflow_automation_plat.Server.Protocols.{create_workflow_as}
use workflow_automation_plat.Engine.Samples.{plain_python, clerk}

abbrev pub ids : ℕ → ℕ
ids i = i + 10

abbrev pub step_in : ℕ → StepIn
step_in n = record {
  step_order = n;
  sla_hours = 24;
  required_role_id = some "clerk";
  required_permission_id = none;
}

abbrev pub input : WorkflowIn
input = record { name = "Leave"; steps = step_in 1 ∷ step_in 2 ∷ []; transitions = chain_in 0 2 }

abbrev pub admin : User
admin = record clerk {
  id = "u0";
  roles = record { id = "admin"; name = "admin"; permissions = [] } ∷ [];
}

abbrev pub created_db : Db
created_db = (create_workflow_as plain_python ids 2 input admin (empty_db ("clerk" ∷ []) [])).0

abbrev pub started_db : Db
started_db = (start_request 7 100 true clerk 2 end created_db).0

pub started_db-Reaches : Reaches plain_python started_db
started_db-Reaches =
    next (next (start ("clerk" ∷ []) []) (workflow_created ids 2 input admin))
      (started 7 100 true clerk 2 end)

-- The first step's row, and the task that it is for a clerk.
abbrev pub first_step : WorkflowStep
first_step = record {
  id = 10;
  workflow_id = 2;
  step_order = 1;
  sla_hours = 24;
  required_role_id = some "clerk";
  required_permission_id = none;
}

abbrev pub first_task : RequestStep
first_task = pending 100 first_step

pub first_task-mem :
    IsIn {A = ℕ × RequestStep} (7, first_task) (my_tasks plain_python clerk started_db.requests)
unfolding start_request commit_started start_workflow start_found start_step change_status
    new_instance create_workflow_as check_role has_role create_workflow add_workflow create_steps
    my_tasks tasks_of is_valid_transition
first_task-mem = inl refl
