-- ===== src/Server/Listing.antt =====
-- The endpoints of app/api/v1/endpoints/requests.py that only read, and the schemas of
-- app/schemas/request.py through which they answer.
use workflow_automation_plat.Common.{
  ℕ, zero, suc, ◌+◌, String, Bool, true, false, Option, none, some, List, [], ◌∷◌, ◌++◌, map, leb,
  str_eq, if◌then◌else◌, ◌&&◌, ◌||◌, keep, take, length,
}
use workflow_automation_plat.Js.{obj}
use workflow_automation_plat.Request.{RequestInfo}
use workflow_automation_plat.Lifecycle.{
  RequestStatus, created, in_progress, approved, rejected, completed, escalated, same_value,
}
use workflow_automation_plat.Engine.Conditions.{Python}
use workflow_automation_plat.Engine.Process.{User, WorkflowStep, RequestStep}
use workflow_automation_plat.Engine.Step.{meets, role_ids, permission_ids, is_admin}
use workflow_automation_plat.Server.Store.{RequestRow, Db, get_request}

-- `RequestStatus[name]`, and the text of a status.
abbrev pub status_named : String → Option RequestStatus
status_named s =
    if str_eq s "CREATED"
    then some created
    else if str_eq s "IN_PROGRESS"
    then some in_progress
    else if str_eq s "APPROVED"
    then some approved
    else if str_eq s "REJECTED"
    then some rejected
    else if str_eq s "COMPLETED"
    then some completed
    else if str_eq s "ESCALATED"
    then some escalated
    else none

abbrev pub status_text : RequestStatus → String
status_text created = "CREATED"
status_text in_progress = "IN_PROGRESS"
status_text approved = "APPROVED"
status_text rejected = "REJECTED"
status_text completed = "COMPLETED"
status_text escalated = "ESCALATED"

-- The condition that the parameter `status` adds: none for a missing, an empty or an unknown one.
abbrev pub has_status : Python → Option String → RequestRow → Bool
has_status py none r = true
has_status py (some s) r =
    if str_eq s ""
    then true
    else elim (status_named (py.upper s)) [ none ↦ true | some st ↦ same_value r.state.status st ]

-- The condition that `requester_id` adds; `as_uuid` is the UUID that the text stands for.
abbrev pub has_requester : (String → Option String) → Option String → RequestRow → Bool
has_requester as_uuid none r = true
has_requester as_uuid (some s) r =
    if str_eq s ""
    then true
    else elim (as_uuid s) [ none ↦ true | some u ↦ str_eq r.state.requester_id u ]

-- `order_by(created_at.desc())`.
unfoldable pub insert_newest : RequestRow → List RequestRow → List RequestRow
insert_newest r [] = r ∷ []
insert_newest r (q ∷ rows) =
    if leb q.created_at r.created_at then r ∷ q ∷ rows else q ∷ insert_newest r rows

unfoldable pub newest_first : List RequestRow → List RequestRow
unfolding insert_newest
newest_first [] = []
newest_first (r ∷ rows) = insert_newest r (newest_first rows)

-- `offset(n)`.
unfoldable pub drop : ℕ → List RequestRow → List RequestRow
drop zero rows = rows
drop (suc n) [] = []
drop (suc n) (r ∷ rows) = drop n rows

-- `read_requests`.
unfoldable pub read_requests :
    Python → (String → Option String) → ℕ → ℕ → Option String → Option String → Db → List RequestRow
unfolding newest_first drop
read_requests py as_uuid skip limit status requester db = take limit (
    drop skip (
      newest_first
        (keep (λ r. has_status py status r && has_requester as_uuid requester r) db.requests)))

-- The rows that wait for a decision, and whether the user may take it.
abbrev pub is_pending : RequestStep → Bool
is_pending x = str_eq x.status "PENDING" && elim x.completed_at [ none ↦ true | some t ↦ false ]

abbrev pub may_decide : Python → User → WorkflowStep → Bool
may_decide py user step =
    is_admin py user
    || (meets step.required_role_id (role_ids user.roles)
        && meets step.required_permission_id (permission_ids user.roles))

unfoldable pub tasks_of : Python → User → List RequestStep → List RequestStep
tasks_of py user xs = keep (λ x. is_pending x && may_decide py user x.step) xs

-- `get_my_tasks`: the tasks with the identifiers of their requests.
unfoldable pub my_tasks : Python → User → List RequestRow → List (ℕ × RequestStep)
unfolding tasks_of
my_tasks py user [] = []
my_tasks py user (r ∷ rows) =
    map (λ x. (r.id, x)) (tasks_of py user r.state.steps) ++ my_tasks py user rows

-- `get_dashboard_stats`.
pub record Counts : Type 0 where
  pub active : ℕ
  pub completed_count : ℕ
  pub pending : ℕ
  pub overdue : ℕ

unfoldable pub count_steps : (RequestStep → Bool) → List RequestRow → ℕ
count_steps p [] = 0
count_steps p (r ∷ rows) = length (keep p r.state.steps) + count_steps p rows

unfoldable pub count_status : RequestStatus → List RequestRow → ℕ
count_status s rows = length (keep (λ (r : RequestRow). same_value r.state.status s) rows)

unfoldable pub dashboard_stats : Db → Counts
unfolding count_steps count_status
dashboard_stats db = record {
  active = count_status in_progress db.requests;
  completed_count = count_status completed db.requests;
  pending = count_steps (λ x. str_eq x.status "PENDING") db.requests;
  overdue = count_steps (λ x. x.is_sla_breached) db.requests;
}

-- `WorkflowRequestSchema` of a row. The row calls its steps `request_steps`; it has no attribute
-- `steps`, so that the schema's default, the empty list, stands. Identifiers are worded by `word`.
unfoldable pub request_info : (ℕ → String) → RequestRow → RequestInfo
request_info word r = record {
  id = word r.id;
  status = status_text r.state.status;
  steps = [];
  request_data = obj r.state.request_data;
  requester_id = r.state.requester_id;
  workflow_id = word r.state.workflow_id;
  created_at = r.created_at;
}

-- `read_request`: `none` is 404.
unfoldable pub read_request : (ℕ → String) → ℕ → Db → Option RequestInfo
unfolding request_info get_request
read_request word id db = elim (get_request id db.requests) [
  | none ↦ none
  | some r ↦ some (request_info word r)
]
