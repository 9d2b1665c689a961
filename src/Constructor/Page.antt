-- ===== src/Constructor/Page.antt =====
-- The page's state, what it shows, and its handlers. A handler that waits for the server is two
-- messages: the click, and the answer.
use workflow_automation_plat.Common.{
  ℕ, ◌+◌, ◌-◌, String, Bool, true, false, Option, none, some, List, [], ◌∷◌, length, ◌==◌,
  if◌then◌else◌, is_blank, ◌&&◌,
}
use workflow_automation_plat.Js.{Host, Thrown, Result, ok, threw}
use workflow_automation_plat.Ui.{}
use workflow_automation_plat.Constructor.Nodes.{
  Role, Permission, Step, Transition, Edit, add_step, remove_step, update_step, default_transitions,
}
use workflow_automation_plat.Constructor.Payload.{Payload, wizard_payload, json_payload}

pub data Mode : Type 0 where
  wizard json : Mode

pub record State : Type 0 where
  pub step : ℕ
  pub mode : Mode
  pub is_submitting : Bool
  pub name : String
  pub description : String
  pub workflow_steps : List Step
  pub transitions : List Transition
  pub json_source : String
  pub roles : List Role
  pub permissions : List Permission

pub data Alert : Type 0 where
  name_required node_required : Alert
  validation_error : Thrown → Alert

pub data Effect : Type 0 where
  alert : Alert → Effect
  get_metadata : Effect
  post_workflow : Payload → Effect
  push : String → Effect

-- What the user's actions send to the page.
pub data Msg : Type 0 where
  set_mode : Mode → Msg
  set_json_source set_name set_description : String → Msg
  insert_role : Role → Msg
  add_node : Msg
  remove_node : ℕ → Msg
  edit_node : ℕ → Edit → Msg
  back continue submit : Msg

-- What one action draws on beyond the state: the identifier that `Math.random` gives, and the text
-- in which the regular expression of the role button has replaced the first role.
pub record Draw : Type 0 where
  pub temp_id : String
  pub replaced : String

abbrev pub initial : State
initial = record {
  step = 1;
  mode = wizard;
  is_submitting = false;
  name = "";
  description = "";
  workflow_steps = [];
  transitions = [];
  json_source = "";
  roles = [];
  permissions = [];
}

-- The answer to the two requests of the effect on mount; `template` is the text that it sets.
unfoldable pub metadata_loaded : Option (List Role × List Permission) → String → State → State
metadata_loaded (some (roles, permissions)) template s = record s {
  roles = roles;
  permissions = permissions;
  json_source = template;
}
metadata_loaded none template s = s

-- `nextStep`.
unfoldable pub next_step : State → State × List Effect
next_step s =
    if s.step == 1 && is_blank s.name
    then (s, alert name_required ∷ [])
    else if s.step == 2 && length s.workflow_steps == 0
    then (s, alert node_required ∷ [])
    else if s.step == 2
    then (record s { transitions = default_transitions s.workflow_steps; step = s.step + 1 }, [])
    else (record s { step = s.step + 1 }, [])

unfoldable pub payload_of : Host → State → Mode → Result Payload
payload_of host s json = json_payload host s.roles s.json_source
payload_of host s wizard = ok (wizard_payload s.name s.description s.workflow_steps s.transitions)

-- The `catch` and `finally` of `handleSubmit`.
unfoldable pub submit_failed : Thrown → State → State × List Effect
submit_failed e s = (record s { is_submitting = false }, alert (validation_error e) ∷ [])

-- `handleSubmit` up to the request; what the payload throws is caught at once.
unfoldable pub submit_payload : Result Payload → State → State × List Effect
unfolding submit_failed
submit_payload (ok payload) s = (record s { is_submitting = true }, post_workflow payload ∷ [])
submit_payload (threw e) s = submit_failed e s

-- The rest of `handleSubmit`, when the answer is there.
unfoldable pub submit_answered : Option Thrown → State → State × List Effect
unfolding submit_failed
submit_answered none s = (record s { is_submitting = false }, push "/workflows" ∷ [])
submit_answered (some e) s = submit_failed e s

unfoldable pub update : Host → Draw → Msg → State → State × List Effect
unfolding next_step submit_payload payload_of
update host d (set_mode m) s = (record s { mode = m }, [])
update host d (set_json_source t) s = (record s { json_source = t }, [])
update host d (set_name t) s = (record s { name = t }, [])
update host d (set_description t) s = (record s { description = t }, [])
update host d (insert_role r) s = (record s { json_source = d.replaced }, [])
update host d add_node s = (record s { workflow_steps = add_step d.temp_id s.workflow_steps }, [])
update host d (remove_node i) s = (record s { workflow_steps = remove_step i s.workflow_steps }, [])
update host d (edit_node i e) s =
    (record s { workflow_steps = update_step i e s.workflow_steps }, [])
update host d back s = (record s { step = s.step - 1 }, [])
update host d continue s = next_step s
update host d submit s = submit_payload (payload_of host s s.mode) s
