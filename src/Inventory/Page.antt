-- ===== src/Inventory/Page.antt =====
-- The page's state and its handlers. A handler that waits for the server is a click and an answer.
use workflow_automation_plat.Common.{
  ℕ, String, Bool, true, false, Option, none, some, List, [], ◌∷◌, ◌||◌, str_eq, is_blank,
  if◌then◌else◌, concat, any,
}
use workflow_automation_plat.Js.{Host, Json, Result, ok, threw}
use workflow_automation_plat.Constructor.Nodes.{Role}
use workflow_automation_plat.Constructor.Payload.{Payload}
use workflow_automation_plat.Inventory.Blueprint.{blueprint_payload, add_node}

-- A workflow of the list, with the length of its `steps` where the server sends them.
pub record Workflow : Type 0 where
  pub id : String
  pub name : String
  pub description : Option String
  pub steps : Option ℕ

pub record State : Type 0 where
  pub workflows : List Workflow
  pub loading : Bool
  pub starting : Option String
  pub payload : String
  pub request_title : String
  pub request_priority : String
  pub show_payload_modal : Option Workflow
  pub show_create_modal : Bool
  pub is_submitting : Bool
  pub blueprint_json : String
  pub roles : List Role
  -- The names of the user's roles; `none` before the user is there, or without `roles`.
  pub user : Option (List String)
  pub new_step_name : String
  pub new_step_role : String
  pub new_step_sla : ℕ

-- `request_data` of a request, and the workflow that it starts.
pub record StartRequest : Type 0 where
  pub workflow_id : String
  pub title : String
  pub description : String
  pub priority : String

pub data Effect : Type 0 where
  post_workflow : Payload → Effect
  get_workflows : Effect
  post_request : StartRequest → Effect
  alert push : String → Effect

pub data Msg : Type 0 where
  open_create close_create build commit add : Msg
  set_blueprint set_step_name set_step_role : String → Msg
  set_step_sla : ℕ → Msg
  new_request : Workflow → Msg
  abort start_request : Msg
  set_title set_payload set_priority : String → Msg

abbrev pub initial : State
initial = record {
  workflows = [];
  loading = true;
  starting = none;
  payload = "";
  request_title = "";
  request_priority = "medium";
  show_payload_modal = none;
  show_create_modal = false;
  is_submitting = false;
  blueprint_json = "";
  roles = [];
  user = none;
  new_step_name = "";
  new_step_role = "";
  new_step_sla = 24;
}

-- The answers to the three requests on mount; `template` is the text of the default blueprint.
unfoldable pub data_loaded :
    Option (List Workflow × Option (List String) × List Role) → String → State → State
data_loaded (some (ws, user, roles)) template s = record s {
  workflows = ws;
  user = user;
  roles = roles;
  blueprint_json = template;
  loading = false;
}
data_loaded none template s = record s { loading = false }

abbrev create_failed : State → State × List Effect
create_failed s = (
  record s { is_submitting = false },
  alert "Failed to create workflow. Verify JSON structure and role names." ∷ [],
)

-- `handleCreateWorkflow` up to the first request; what the payload throws is caught at once.
unfoldable pub create_payload : Result Payload → State → State × List Effect
create_payload (ok p) s = (record s { is_submitting = true }, post_workflow p ∷ [])
create_payload (threw e) s = create_failed s

-- The answer to the post, after which the list is asked for.
unfoldable pub create_answered : Bool → State → State × List Effect
create_answered true s = (s, get_workflows ∷ [])
create_answered false s = create_failed s

-- The answer with the list.
unfoldable pub refresh_answered : Option (List Workflow) → State → State × List Effect
refresh_answered (some ws) s =
    (record s { workflows = ws; show_create_modal = false; is_submitting = false }, [])
refresh_answered none s = create_failed s

-- `roles[0]?.name || ""`.
abbrev pub first_role : List Role → String
first_role [] = ""
first_role (r ∷ _) = r.name

abbrev node_added : Host → Result Json → State → State × List Effect
node_added host (ok updated) s = (
  record s {
    blueprint_json = host.stringify updated;
    new_step_name = "";
    new_step_role = first_role s.roles;
    new_step_sla = 24;
  },
  [],
)
node_added host (threw e) s =
    (s, alert "Invalid JSON in editor. Please fix before adding steps." ∷ [])

-- `handleAddStep`.
unfoldable pub handle_add_step : Host → State → State × List Effect
handle_add_step host s =
    if str_eq s.new_step_name "" || str_eq s.new_step_role ""
    then (s, alert "Please provide a Step Name and Role." ∷ [])
    else node_added host
        (add_node host s.new_step_name s.new_step_role s.new_step_sla s.blueprint_json) s

-- `handleStartWorkflow` up to the request.
unfoldable pub handle_start_workflow : Option Workflow → State → State × List Effect
handle_start_workflow none s = (s, [])
handle_start_workflow (some w) s =
    if is_blank s.request_title then (s, alert "Please provide a request title." ∷ []) else (
      record s { starting = some w.id },
      post_request (record {
        workflow_id = w.id;
        title = s.request_title;
        description = s.payload;
        priority = s.request_priority;
      })
          ∷ [],
    )

-- The rest of `handleStartWorkflow`: the answer is the new request's identifier, or a failure,
-- which is only logged; either way the dialog is closed and its fields are reset.
unfoldable pub start_answered : Option String → State → State × List Effect
start_answered answer s = (
  record s {
    starting = none;
    show_payload_modal = none;
    request_title = "";
    payload = "";
    request_priority = "medium";
  },
  elim answer [ none ↦ [] | some id ↦ push (concat "/instances/" id) ∷ [] ],
)

unfoldable pub update : Host → Msg → State → State × List Effect
unfolding create_payload handle_add_step handle_start_workflow
update host open_create s = (record s { show_create_modal = true }, [])
update host close_create s = (record s { show_create_modal = false }, [])
update host build s = (s, push "/admin/workflows/create" ∷ [])
update host commit s = create_payload (blueprint_payload host s.roles s.blueprint_json) s
update host add s = handle_add_step host s
update host (set_blueprint t) s = (record s { blueprint_json = t }, [])
update host (set_step_name t) s = (record s { new_step_name = t }, [])
update host (set_step_role t) s = (record s { new_step_role = t }, [])
update host (set_step_sla n) s = (record s { new_step_sla = n }, [])
update host (new_request w) s = (record s { show_payload_modal = some w; payload = "" }, [])
update host abort s = (record s { show_payload_modal = none }, [])
update host start_request s = handle_start_workflow s.show_payload_modal s
update host (set_title t) s = (record s { request_title = t }, [])
update host (set_payload t) s = (record s { payload = t }, [])
update host (set_priority t) s = (record s { request_priority = t }, [])

-- `isAdmin`.
abbrev pub is_admin : Host → State → Bool
is_admin host s = elim s.user [
  | none ↦ false
  | some names ↦ any (λ n. str_eq (host.to_lower_case n) "admin") names
]
