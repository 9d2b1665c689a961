-- ===== src/Dashboard.antt =====
-- frontend/src/app/dashboard/page.tsx: the figures, the latest requests and audit entries, the pulse
-- animation, and the dialog that starts a request.
pub mod View
pub mod Starting
mod Tests
use workflow_automation_plat.Common.{
  ℕ, String, Bool, true, false, Option, none, some, List, [], ◌∷◌, take, str_eq, ◌||◌,
  if◌then◌else◌, concat,
}

pub record Stats : Type 0 where
  pub active : ℕ
  pub completed : ℕ
  pub overdue : ℕ
  pub pending : ℕ

pub record NewRequest : Type 0 where
  pub workflow_id : String
  pub title : String
  pub description : String
  pub priority : String

-- What the page reads of a workflow, a request and an audit entry.
pub record Workflow : Type 0 where
  pub id : String
  pub name : String

pub record RecentRequest : Type 0 where
  pub id : String
  pub status : String
  pub created_at : ℕ

pub record AuditLog : Type 0 where
  pub id : String
  pub action : String
  pub timestamp : ℕ

pub record State : Type 0 where
  pub workflows : List Workflow
  pub stats : Stats
  pub pulsing : Bool
  pub recent_requests : List RecentRequest
  pub audit_logs : List AuditLog
  pub loading : Bool
  pub is_starting_request : Bool
  pub request_modal_open : Bool
  pub new_request_data : NewRequest

pub data Msg : Type 0 where
  open_modal close_modal pulse start_request : Msg
  set_workflow set_title set_description set_priority : String → Msg

pub data Effect : Type 0 where
  -- `setTimeout(() => setPulsing(false), ms)`.
  timer : ℕ → Effect
  post_request : NewRequest → Effect
  alert push : String → Effect

abbrev pub initial : State
initial = record {
  workflows = [];
  stats = record { active = 0; completed = 0; overdue = 0; pending = 0 };
  pulsing = false;
  recent_requests = [];
  audit_logs = [];
  loading = true;
  is_starting_request = false;
  request_modal_open = false;
  new_request_data = record { workflow_id = ""; title = ""; description = ""; priority = "medium" };
}

-- The answers to the four requests on mount, which count together.
pub record Loaded : Type 0 where
  pub stats : Stats
  pub requests : List RecentRequest
  pub audit : List AuditLog
  pub workflows : List Workflow

unfoldable pub data_loaded : Option Loaded → State → State
data_loaded (some l) s = record s {
  stats = l.stats;
  recent_requests = take 5 l.requests;
  audit_logs = take 5 l.audit;
  workflows = l.workflows;
  loading = false;
}
data_loaded none s = record s { loading = false }

-- `handlePulse`, and its timer.
unfoldable pub handle_pulse : State → State × List Effect
handle_pulse s = (record s { pulsing = true }, timer 2000 ∷ [])

unfoldable pub pulse_ended : State → State
pulse_ended s = record s { pulsing = false }

-- `handleStartRequest` up to the request.
unfoldable pub handle_start_request : State → State × List Effect
handle_start_request s =
    if str_eq s.new_request_data.workflow_id "" || str_eq s.new_request_data.title ""
    then (s, alert "Please select a workflow and provide a title." ∷ [])
    else (record s { is_starting_request = true }, post_request s.new_request_data ∷ [])

-- The rest of `handleStartRequest`: the new request's identifier, or a failure.
unfoldable pub start_answered : Option String → State → State × List Effect
start_answered (some id) s = (s, push (concat "/instances/" id) ∷ [])
start_answered none s =
    (record s { is_starting_request = false }, alert "Failed to initialize request." ∷ [])

unfoldable pub update : Msg → State → State × List Effect
unfolding handle_pulse handle_start_request
update open_modal s = (record s { request_modal_open = true }, [])
update close_modal s = (record s { request_modal_open = false }, [])
update pulse s = handle_pulse s
update start_request s = handle_start_request s
update (set_workflow v) s =
    (record s { new_request_data = record (s.new_request_data) { workflow_id = v } }, [])
update (set_title v) s =
    (record s { new_request_data = record (s.new_request_data) { title = v } }, [])
update (set_description v) s =
    (record s { new_request_data = record (s.new_request_data) { description = v } }, [])
update (set_priority v) s =
    (record s { new_request_data = record (s.new_request_data) { priority = v } }, [])
