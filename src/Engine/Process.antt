-- ===== src/Engine/Process.antt =====
-- `WorkflowEngine` on one request: the rows of the request are the fields of an `Instance`, in the
-- order in which they were added, and the workflows' rows are a `Catalog`. Queries give rows in the
-- order of the lists. Times are in seconds.
use workflow_automation_plat.Common.{
  ℕ, ◌+◌, ◌*◌, String, Bool, true, false, Option, none, some, List, [], ◌∷◌, ◌++◌, ◌==◌,
  if◌then◌else◌, ◌&&◌, find,
}
use workflow_automation_plat.Js.{Json, end, Fields}
use workflow_automation_plat.Lifecycle.{RequestStatus, created, in_progress, is_valid_transition}

-- The identifiers of the rows are numbers.
pub record Workflow : Type 0 where
  pub id : ℕ
  pub name : String
  pub is_active : Bool

pub record WorkflowStep : Type 0 where
  pub id : ℕ
  pub workflow_id : ℕ
  pub step_order : ℕ
  pub sla_hours : ℕ
  pub required_role_id : Option String
  pub required_permission_id : Option String

-- `to_step` is the row that `to_step_id` names, and `condition_config` is a dict, empty for None.
pub record StepTransition : Type 0 where
  pub from_step_id : ℕ
  pub to_step : Option WorkflowStep
  pub outcome : String
  pub condition_config : Fields

-- The tables of the workflows, and the identifiers in those of the roles and the permissions.
pub record Catalog : Type 0 where
  pub workflows : List Workflow
  pub steps : List WorkflowStep
  pub transitions : List StepTransition
  pub roles : List String
  pub permissions : List String

pub record Permission : Type 0 where
  pub id : String
  pub name : String

pub record Role : Type 0 where
  pub id : String
  pub name : String
  pub permissions : List Permission

pub record User : Type 0 where
  pub id : String
  pub email : String
  pub username : String
  pub full_name : String
  pub hashed_password : String
  pub is_active : Bool
  pub roles : List Role

-- A row of app/db/models/audit.py's `SLAEscalation`.
pub record Escalation : Type 0 where
  pub escalation_level : ℕ
  pub escalated_at : ℕ

-- `step` is the row that `step_id` names.
pub record RequestStep : Type 0 where
  pub step : WorkflowStep
  pub status : String
  pub started_at : ℕ
  pub deadline : ℕ
  pub completed_at : Option ℕ
  pub assigned_to : Option String
  pub is_sla_breached : Bool
  pub decision_data : Fields
  pub comments : Option Json
  pub escalations : List Escalation

pub record StateHistory : Type 0 where
  pub from_status : RequestStatus
  pub to_status : RequestStatus
  pub changed_by : String

pub record Instance : Type 0 where
  pub workflow_id : ℕ
  pub requester_id : String
  pub request_data : Fields
  pub status : RequestStatus
  pub current_step_id : Option ℕ
  pub completed_at : Option ℕ
  pub steps : List RequestStep
  pub history : List StateHistory
  -- The actions that were logged, with their actors, empty where there is none.
  pub audit : List (String × String)

pub data EngineError : Type 0 where
  not_found no_first_step no_pending_step role_missing permission_missing invalid_transition
        notification_failed status_refused :
      EngineError

-- What a call leaves: the changed request, or an exception, after which nothing is committed.
pub data Outcome : Type 0 where
  done : Instance → Outcome
  raised : EngineError → Outcome

abbrev pub and_then : Outcome → (Instance → Outcome) → Outcome
and_then (done r) k = k r
and_then (raised e) k = raised e

-- `validate_transition`, the assignment of `status`, and the row of the history.
unfoldable pub change_status : RequestStatus → String → Instance → Outcome
change_status to by r =
    if is_valid_transition r.status to
    then done (record r {
      status = to;
      history =
          r.history ++ record { from_status = r.status; to_status = to; changed_by = by } ∷ [];
    })
    else raised invalid_transition

-- The row of a step that begins now.
abbrev pub pending : ℕ → WorkflowStep → RequestStep
pending now step = record {
  step = step;
  status = "PENDING";
  started_at = now;
  deadline = now + step.sla_hours * 3600;
  completed_at = none;
  assigned_to = none;
  is_sla_breached = false;
  decision_data = end;
  comments = none;
  escalations = [];
}

abbrev pub log_action : String → String → Instance → Instance
log_action action actor r = record r { audit = r.audit ++ (action, actor) ∷ [] }

abbrev pub enter : ℕ → WorkflowStep → Instance → Instance
enter now step r = record r {
  steps = r.steps ++ pending now step ∷ [];
  current_step_id = some step.id;
}

unfoldable pub new_instance : ℕ → String → Fields → Instance
new_instance workflow_id requester_id data_fields = record {
  workflow_id = workflow_id;
  requester_id = requester_id;
  request_data = data_fields;
  status = created;
  current_step_id = none;
  completed_at = none;
  steps = [];
  history = [];
  audit = [];
}

-- `start_workflow` from the query of the first step on, and from the query of the workflow on;
-- `notified` is whether the message queue takes the notification.
unfoldable pub start_step : ℕ → Bool → String → Instance → Option WorkflowStep → Outcome
start_step now notified requester_id r none = raised no_first_step
start_step now notified requester_id r (some s) =
    if notified
    then done (log_action "WORKFLOW_STARTED" requester_id (enter now s r))
    else raised notification_failed

abbrev pub is_first_of : ℕ → WorkflowStep → Bool
is_first_of workflow_id s = (s.workflow_id == workflow_id) && (s.step_order == 1)

unfoldable pub start_found : Catalog → ℕ → Bool → ℕ → String → Fields → Option Workflow → Outcome
unfolding new_instance change_status start_step
start_found catalog now notified workflow_id requester_id data_fields none = raised not_found
start_found catalog now notified workflow_id requester_id data_fields (some w) =
    and_then
      (change_status in_progress requester_id (new_instance workflow_id requester_id data_fields))
      (λ r. start_step now notified requester_id r (find (is_first_of workflow_id) catalog.steps))

-- `start_workflow`.
unfoldable pub start_workflow : Catalog → ℕ → Bool → ℕ → String → Fields → Outcome
unfolding start_found
start_workflow catalog now notified workflow_id requester_id data_fields =
    start_found catalog now notified workflow_id requester_id data_fields
      (find (λ (w : Workflow). (w.id == workflow_id) && w.is_active) catalog.workflows)

-- The row of `current_exec`: of the current step, and not completed.
abbrev pub is_open_at : ℕ → RequestStep → Bool
is_open_at id x = (x.step.id == id) && elim x.completed_at [ none ↦ true | some t ↦ false ]

unfoldable pub current_exec : Instance → Option RequestStep
current_exec r = elim r.current_step_id [ none ↦ none | some id ↦ find (is_open_at id) r.steps ]
