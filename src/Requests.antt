-- ===== src/Requests.antt =====
-- frontend/src/app/requests/page.tsx: the list of all requests, filtered by status.
pub mod Filtering
mod Tests
use workflow_automation_plat.Common.{
  ℕ, String, Bool, true, false, Option, none, some, List, [], ◌∷◌, ◌++◌, length, ◌==◌, str_eq,
  if◌then◌else◌, concat, find,
}
use mathlib.Core.Option
use workflow_automation_plat.Js.{Host}
use workflow_automation_plat.Ui.{Widget, text, inert, spinner, button, select, each}

pub record WorkflowRequest : Type 0 where
  pub id : String
  pub workflow_id : String
  pub requester_id : String
  pub status : String
  pub created_at : ℕ

-- The colour of a status, which stands for its four classes.
pub data Color : Type 0 where
  slate indigo emerald rose amber : Color

abbrev pub status_colors : List (String × Color)
status_colors =
    ("CREATED", slate)
    ∷ ("IN_PROGRESS", indigo)
    ∷ ("APPROVED", emerald)
    ∷ ("REJECTED", rose)
    ∷ ("COMPLETED", emerald)
    ∷ ("ESCALATED", amber)
    ∷ []

-- `STATUS_COLORS[status] || STATUS_COLORS.CREATED`.
abbrev pub status_color : String → Color
status_color status = elim (find (λ (c : String × Color). str_eq c.0 status) status_colors) [
  | none ↦ slate
  | some c ↦ c.1
]

pub record State : Type 0 where
  pub requests : List WorkflowRequest
  pub loading : Bool
  pub status_filter : String

pub data Msg : Type 0 where
  set_filter open_request : String → Msg

pub data Effect : Type 0 where
  get_requests push : String → Effect

abbrev pub initial : State
initial = record { requests = []; loading = true; status_filter = "" }

-- The path that `fetchRequests` asks for.
unfoldable pub requests_path : String → String
requests_path filter =
    concat "requests/" (if str_eq filter "" then "" else concat "?status=" filter)

-- The effect on `statusFilter` asks again with each choice.
unfoldable pub update : Msg → State → State × List Effect
unfolding requests_path
update (set_filter f) s = (record s { status_filter = f }, get_requests (requests_path f) ∷ [])
update (open_request id) s = (s, push (concat "/instances/" id) ∷ [])

-- An answer to `fetchRequests`, whichever filter is chosen by then.
unfoldable pub requests_loaded : Option (List WorkflowRequest) → State → State
requests_loaded (some rs) s = record s { requests = rs; loading = false }
requests_loaded none s = record s { loading = false }

-- The choices of the filter.
abbrev pub filter_options : List (String × String)
filter_options =
    ("", "All Nodes")
    ∷ ("IN_PROGRESS", "Active")
    ∷ ("COMPLETED", "Fulfilled")
    ∷ ("REJECTED", "Terminated")
    ∷ ("ESCALATED", "Escalated")
    ∷ []

unfoldable pub view_request : Host → (ℕ → String) → ℕ → WorkflowRequest → List (Widget Msg)
view_request host format i r =
    button (concat "Instance #" (host.short_id r.id)) false (open_request r.id)
    ∷ text (host.spaced r.status)
    ∷ text (format r.created_at)
    ∷ text (concat "Core Blueprint: " r.workflow_id)
    ∷ text "Analyze Trace"
    ∷ []

unfoldable pub view : Host → (ℕ → String) → State → List (Widget Msg)
unfolding view_request
view host format s =
    if s.loading
    then spinner ∷ text "Syncing Operational Data" ∷ []
    else text "Operational Ledger"
      ∷ text "Request Audit"
      ∷ text
          "Track, monitor, and audit every strategic workflow instance across the infrastructure."
      ∷ inert "Search instance hash..."
      ∷ select s.status_filter filter_options set_filter
      ∷ (if length s.requests == 0
          then text "No active sequences discovered"
            ∷ text "Initialize a strategy from the inventory to begin tracking."
            ∷ []
          else each 0 (view_request host format) s.requests)
