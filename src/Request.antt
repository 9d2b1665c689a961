-- ===== src/Request.antt =====
-- frontend/src/app/requests/[id]/page.tsx (also served as frontend/src/app/instances/[id]/page.tsx):
-- one request with its timeline, and the console in which its pending step is decided.
pub mod View
pub mod Console
mod Tests
use workflow_automation_plat.Common.{
  ℕ, String, Bool, true, false, Option, none, some, List, [], ◌∷◌, str_eq, find, if◌then◌else◌,
}
use workflow_automation_plat.Js.{Json}
use workflow_automation_plat.Timeline.{StepInfo}

pub record RequestInfo : Type 0 where
  pub id : String
  pub status : String
  pub steps : List StepInfo
  pub request_data : Json
  pub requester_id : String
  pub workflow_id : String
  pub created_at : ℕ

pub record State : Type 0 where
  pub request : Option RequestInfo
  pub loading : Bool
  pub processing : Bool
  pub outcome : String
  pub note : String

pub data Msg : Type 0 where
  choose set_note : String → Msg
  process : Msg

pub data Effect : Type 0 where
  get_request : Effect
  -- /requests/{id}/process with the outcome and the note.
  post_process : String → String → Effect

abbrev pub initial : State
initial = record {
  request = none;
  loading = true;
  processing = false;
  outcome = "APPROVED";
  note = "";
}

-- The answer to `fetchRequest`.
unfoldable pub request_loaded : Option RequestInfo → State → State
request_loaded (some r) s = record s { request = some r; loading = false }
request_loaded none s = record s { loading = false }

unfoldable pub update : Msg → State → State × List Effect
update (choose o) s = (record s { outcome = o }, [])
update (set_note t) s = (record s { note = t }, [])
update process s = (record s { processing = true }, post_process s.outcome s.note ∷ [])

-- `handleProcess` after the post, which asks for the request again, and after that.
unfoldable pub process_answered : Bool → State → State × List Effect
process_answered true s = (s, get_request ∷ [])
process_answered false s = (record s { processing = false }, [])

unfoldable pub refreshed : Option RequestInfo → State → State
refreshed (some r) s = record s { request = some r; note = ""; processing = false }
refreshed none s = record s { processing = false }

-- `currentStep`.
abbrev pub current_step : RequestInfo → Option StepInfo
current_step r = find (λ (s : StepInfo). str_eq s.status "PENDING") r.steps
