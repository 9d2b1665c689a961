-- ===== src/Engine/Step.antt =====
-- `WorkflowEngine.process_step`, which closes the current step of a request and moves it on, and
-- the endpoint of app/api/v1/endpoints/workflow_instances.py that decides through it.
use workflow_automation_plat.Common.{
  ℕ, String, Bool, true, not, Option, none, some, List, [], ◌∷◌, ◌++◌, str_eq, ◌==◌, map,
  if◌then◌else◌, ◌&&◌, ◌||◌, any, keep,
}
use workflow_automation_plat.Js.{Json, null, str, obj, end, field, Fields, lookup_field}
use workflow_automation_plat.Lifecycle.{approved, rejected, completed}
use workflow_automation_plat.Engine.Conditions.{Python, evaluate}
use workflow_automation_plat.Engine.Process.{
  Catalog, WorkflowStep, StepTransition, Permission, Role, User, RequestStep, Instance, EngineError,
  Outcome, done, raised, and_then, not_found, no_pending_step, role_missing, permission_missing,
  invalid_transition, status_refused, change_status, log_action, enter, is_open_at, current_exec,
}

-- No requirement, or one that is among the user's identifiers.
abbrev pub meets : Option String → List String → Bool
meets none ids = true
meets (some id) ids = any (λ i. str_eq i id) ids

abbrev pub permission_ids : List Role → List String
permission_ids [] = []
permission_ids (r ∷ rs) = map (λ (p : Permission). p.id) r.permissions ++ permission_ids rs

abbrev pub role_ids : List Role → List String
role_ids rs = map (λ (r : Role). r.id) rs

abbrev pub is_admin : Python → User → Bool
is_admin py user = any (λ (r : Role). str_eq (py.lower r.name) "admin") user.roles

-- The mandatory check: the error that it raises. An administrator passes it without the required
-- role, where tests/integration/test_api_requests.py (test_request_rbac_enforcement) expects 403.
unfoldable pub refusal : Python → User → WorkflowStep → Option EngineError
refusal py user step =
    if is_admin py user
    then none
    else if not (meets step.required_role_id (role_ids user.roles))
    then some role_missing
    else if not (meets step.required_permission_id (permission_ids user.roles))
    then some permission_missing
    else none

-- The assignments that close a step.
abbrev pub close : String → String → Fields → ℕ → RequestStep → RequestStep
close by outcome context now x = record x {
  assigned_to = some by;
  status = outcome;
  decision_data = context;
  comments = elim (lookup_field "comment" context) [ none ↦ x.comments | some c ↦ some c ];
  completed_at = some now;
}

-- The row that the query found is changed in place.
unfoldable pub close_at : ℕ → (RequestStep → RequestStep) → List RequestStep → List RequestStep
close_at id f [] = []
close_at id f (x ∷ xs) = if is_open_at id x then f x ∷ xs else x ∷ close_at id f xs

-- The first transition whose condition is missing or holds.
unfoldable pub choose_transition : Python → Fields → List StepTransition → Option WorkflowStep
choose_transition py context [] = none
choose_transition py context (t ∷ ts) =
    if evaluate py t.condition_config context then t.to_step else choose_transition py context ts

-- `_resolve_next`.
unfoldable pub resolve_next : Python → Catalog → Option ℕ → String → Fields → Option WorkflowStep
unfolding choose_transition
resolve_next py catalog none outcome context = none
resolve_next py catalog (some id) outcome context = choose_transition py context (
    keep (λ (t : StepTransition). (t.from_step_id == id) && str_eq t.outcome outcome)
      catalog.transitions)

-- `_finalize`.
unfoldable pub finalize : ℕ → String → String → Instance → Outcome
unfolding change_status
finalize now outcome by r =
    and_then (change_status (if str_eq outcome "APPROVED" then approved else rejected) by r) (λ r1.
      and_then (change_status completed by r1) (λ r2. done (
        log_action "WORKFLOW_COMPLETED" by
          (record r2 { current_step_id = none; completed_at = some now }))))

-- What follows once the current step is closed.
unfoldable pub proceed :
    Python → Catalog → ℕ → User → String → Fields → Option WorkflowStep → Instance → Outcome
unfolding finalize
proceed py catalog now user outcome context none r = finalize now outcome user.id r
proceed py catalog now user outcome context (some next) r = done (enter now next r)

-- `eval_context`.
abbrev pub eval_context : Instance → Fields → Fields
eval_context r context =
    field "request_data" (obj r.request_data) (field "decision_data" (obj context) end)

-- What the column `status` of a step takes: the names of `StepStatus`.
abbrev pub is_step_status : String → Bool
is_step_status s =
    str_eq s "PENDING"
    || str_eq s "IN_PROGRESS"
    || str_eq s "APPROVED"
    || str_eq s "REJECTED"
    || str_eq s "SKIPPED"

-- `log_action`, which flushes the rows: the closed one is refused if its outcome is no status.
abbrev pub log_flushed : String → String → String → Instance → Outcome
log_flushed outcome action actor r =
    if is_step_status outcome then done (log_action action actor r) else raised status_refused

-- The rest of `process_step`, from the closing of the step on.
unfoldable pub complete_step :
    Python → Catalog → ℕ → User → String → Fields → Instance → RequestStep → Outcome
unfolding proceed resolve_next close_at
complete_step py catalog now user outcome context r current =
    and_then
      (proceed py catalog now user outcome context
        (resolve_next py catalog r.current_step_id outcome (eval_context r context))
        (record r { steps = close_at current.step.id (close user.id outcome context now) r.steps }))
      (log_flushed outcome "STEP_COMPLETED" user.id)

-- `process_step` after the check of roles and permissions, and after the query of the current step.
unfoldable pub if_permitted : Option EngineError → Outcome → Outcome
if_permitted (some e) rest = raised e
if_permitted none rest = rest

unfoldable pub process_current :
    Python → Catalog → ℕ → User → String → Fields → Instance → Option RequestStep → Outcome
unfolding refusal complete_step if_permitted
process_current py catalog now user outcome context r none = raised no_pending_step
process_current py catalog now user outcome context r (some current) =
    if_permitted (refusal py user current.step)
      (complete_step py catalog now user outcome context r current)

-- `process_step` on the request that its query found, if any; an absent context is an empty one.
unfoldable pub process_step :
    Python → Catalog → ℕ → User → String → Fields → Option Instance → Outcome
unfolding process_current current_exec
process_step py catalog now user outcome context none = raised not_found
process_step py catalog now user outcome context (some r) =
    process_current py catalog now user outcome context r (current_exec r)

-- What the decision endpoint answers: the request, or the status of the error.
pub data Response : Type 0 where
  responded : Instance → Response
  refused : ℕ → Response

abbrev pub respond : Outcome → Response
respond (done r) = responded r
respond (raised invalid_transition) = refused 500
respond (raised status_refused) = refused 500
respond (raised e) = refused 400

abbrev pub text_or_none : Option String → Json
text_or_none none = null
text_or_none (some t) = str t

-- `make_decision` on the `action` and the `comment` of its payload.
unfoldable pub make_decision :
    Python → Catalog → ℕ → User → Option String → Option String → Option Instance → Response
unfolding process_step
make_decision py catalog now user none comment r = refused 400
make_decision py catalog now user (some action) comment r =
    if str_eq action ""
    then refused 400
    else respond (
        process_step py catalog now user (py.upper action)
          (field "comment" (text_or_none comment) (field "action" (str action) end)) r)
