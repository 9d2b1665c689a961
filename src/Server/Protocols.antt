-- ===== src/Server/Protocols.antt =====
-- The endpoints of app/api/v1/endpoints/workflows.py, with `WorkflowService` behind them. They answer
-- with a status.
use workflow_automation_plat.Common.{
  ℕ, Bool, false, not, Option, none, some, List, any, find, keep, ◌==◌, if◌then◌else◌, ◌||◌, ◌&&◌,
}
use workflow_automation_plat.Engine.Conditions.{Python}
use workflow_automation_plat.Engine.Process.{
  User, Workflow, WorkflowStep, StepTransition, Catalog, RequestStep,
}
use workflow_automation_plat.Creation.{WorkflowIn, create_workflow}
use workflow_automation_plat.Rbac.{check_role}
use workflow_automation_plat.Server.Store.{RequestRow, Db}

-- `create_workflow` of the endpoint, from the service's call on.
abbrev pub created : Db → Option Catalog → Db × ℕ
created db none = (db, 500)
created db (some catalog) = (record db { catalog = catalog }, 200)

-- `create_workflow` of the endpoint.
unfoldable pub create_workflow_as : Python → (ℕ → ℕ) → ℕ → WorkflowIn → User → Db → Db × ℕ
create_workflow_as py ids workflow_id input me db =
    if check_role py me "admin"
    then created db (create_workflow ids workflow_id input db.catalog)
    else (db, 403)

abbrev pub is_step_of : ℕ → WorkflowStep → Bool
is_step_of id s = s.workflow_id == id

abbrev pub leads_to : ℕ → Option WorkflowStep → Bool
leads_to id none = false
leads_to id (some s) = is_step_of id s

-- The steps go with their workflow, and the transitions from and to them with the steps.
unfoldable pub is_cut : ℕ → List WorkflowStep → StepTransition → Bool
is_cut id steps t =
    any (λ (s : WorkflowStep). is_step_of id s && (s.id == t.from_step_id)) steps
    || leads_to id t.to_step

unfoldable pub without_workflow : ℕ → Catalog → Catalog
unfolding is_cut
without_workflow id catalog = record catalog {
  workflows = keep (λ (w : Workflow). not (w.id == id)) catalog.workflows;
  steps = keep (λ s. not (is_step_of id s)) catalog.steps;
  transitions = keep (λ t. not (is_cut id catalog.steps t)) catalog.transitions;
}

-- A request of the workflow, or one that was at a step of it.
abbrev pub uses : ℕ → RequestRow → Bool
uses id r =
    (r.state.workflow_id == id) || any (λ (x : RequestStep). is_step_of id x.step) r.state.steps

-- `delete_workflow` of the service. The ORM first empties the references of the rows that are not
-- deleted with the workflow, which the columns `workflow_id` and `step_id` refuse.
unfoldable pub delete_found : ℕ → Db → Option Workflow → Db × ℕ
unfolding without_workflow
delete_found id db none = (db, 404)
delete_found id db (some w) =
    if any (uses id) db.requests
    then (db, 500)
    else (record db { catalog = without_workflow id db.catalog }, 204)

abbrev pub get_workflow : ℕ → Db → Option Workflow
get_workflow id db = find (λ (w : Workflow). w.id == id) db.catalog.workflows

-- `delete_workflow` of the endpoint.
unfoldable pub delete_workflow_as : Python → ℕ → User → Db → Db × ℕ
unfolding delete_found
delete_workflow_as py id me db =
    if check_role py me "admin" then delete_found id db (get_workflow id db) else (db, 403)
