-- ===== src/Tasks.antt =====
-- frontend/src/app/tasks/page.tsx: the steps that wait for the user, and the dialog in which one is
-- approved or rejected.
pub mod View
pub mod Flow
mod Tests
use workflow_automation_plat.Common.{
  ℕ, String, Bool, true, false, not, Option, none, some, List, [], ◌∷◌, keep, str_eq,
}
use workflow_automation_plat.Timeline.{StepInfo}

-- `request_data` is held as its entries, with each value as `String(value)` shows it.
pub record Task : Type 0 where
  pub request_id : String
  pub request_step_id : String
  pub workflow_name : String
  pub step_name : String
  pub step_description : Option String
  pub deadline : Option ℕ
  pub is_sla_breached : Bool
  pub request_data : Option (List (String × String))
  pub created_at : ℕ

-- What requests/{id} answers, as far as the page reads it.
pub record Details : Type 0 where
  pub id : String
  pub steps : Option (List StepInfo)

pub record State : Type 0 where
  pub tasks : List Task
  pub loading : Bool
  pub selected_task : Option Task
  pub request_details : Option Details
  pub comment : String
  pub processing : Bool

pub data Action : Type 0 where
  approve reject : Action

abbrev pub action_text : Action → String
action_text approve = "approve"
action_text reject = "reject"

pub data Effect : Type 0 where
  get_tasks : Effect
  -- requests/{id}, for the dialog.
  get_details : String → Effect
  -- /workflow-instances/{id}/decision with `action` and `comment`.
  post_decision : String → String → String → Effect
  alert : String → Effect
  push : String → Effect

pub data Msg : Type 0 where
  select : Task → Msg
  close browse : Msg
  set_comment : String → Msg
  decide : Action → Msg

abbrev pub initial : State
initial = record {
  tasks = [];
  loading = true;
  selected_task = none;
  request_details = none;
  comment = "";
  processing = false;
}

-- The answer to `fetchTasks`.
unfoldable pub tasks_loaded : Option (List Task) → State → State
tasks_loaded (some ts) s = record s { tasks = ts; loading = false }
tasks_loaded none s = record s { loading = false }

-- `handleDecision` up to the request.
unfoldable pub handle_decision : Action → Option Task → State → State × List Effect
handle_decision a none s = (s, [])
handle_decision a (some t) s =
    (record s { processing = true }, post_decision t.request_id (action_text a) s.comment ∷ [])

unfoldable pub update : Msg → State → State × List Effect
unfolding handle_decision
update (select t) s = (record s { selected_task = some t }, get_details t.request_id ∷ [])
update close s = (record s { selected_task = none }, [])
update browse s = (s, push "/workflows" ∷ [])
update (set_comment t) s = (record s { comment = t }, [])
update (decide a) s = handle_decision a s.selected_task s

-- The answer that the effect on `selectedTask` asked for, whichever task is selected by then.
unfoldable pub details_loaded : Option Details → State → State
details_loaded (some d) s = record s { request_details = some d }
details_loaded none s = s

-- `prev.filter(t => t.request_step_id !== selectedTask.request_step_id)`.
unfoldable pub remove_task : Task → List Task → List Task
remove_task done ts = keep (λ (t : Task). not (str_eq t.request_step_id done.request_step_id)) ts

-- The rest of `handleDecision` for the task that was selected at the click.
unfoldable pub decision_answered : Bool → Task → State → State × List Effect
unfolding remove_task
decision_answered true t s = (
  record s {
    tasks = remove_task t s.tasks;
    selected_task = none;
    request_details = none;
    comment = "";
    processing = false;
  },
  [],
)
decision_answered false t s = (
  record s { processing = false },
  alert "Execution failed. Please verify your permissions." ∷ [],
)
