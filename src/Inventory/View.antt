-- ===== src/Inventory/View.antt =====
-- What the page shows.
use workflow_automation_plat.Common.{
  ℕ, String, Bool, true, false, Option, none, some, List, [], ◌∷◌, ◌++◌, length, ◌==◌, str_eq,
  if◌then◌else◌, decimal, map,
}
use workflow_automation_plat.Js.{Host}
use workflow_automation_plat.Ui.{Widget, text, spinner, button, input, select, when, each}
use workflow_automation_plat.Constructor.Nodes.{Role}
use workflow_automation_plat.Inventory.Page.{
  Workflow, State, Msg, open_create, close_create, build, commit, add, set_blueprint, set_step_name,
  set_step_role, set_step_sla, new_request, abort, start_request, set_title, set_payload,
  set_priority, is_admin,
}

unfoldable pub view_header : Bool → List (Widget Msg)
view_header admin =
    text "Operational Blueprints"
    ∷ text "Workflow Inventory"
    ∷ when admin
        (button "Start New Workflow" false open_create ∷ button "Build Strategy" false build ∷ [])

abbrev pub or_text : Option String → String → String
or_text none d = d
or_text (some v) d = if str_eq v "" then d else v

unfoldable pub view_workflow : ℕ → Workflow → List (Widget Msg)
view_workflow i w =
    text "Protocol v4.1"
    ∷ text w.name
    ∷ text (
        or_text w.description
          "System-defined orchestration template for automated cross-departmental processing.")
    ∷ text (decimal (elim w.steps [ none ↦ 0 | some n ↦ n ]))
    ∷ text "Strategic Nodes"
    ∷ button "New Request" false (new_request w)
    ∷ []

unfoldable pub view_cards : List Workflow → List (Widget Msg)
unfolding view_workflow
view_cards ws =
    if length ws == 0
    then text "No operational architectures deployed." ∷ []
    else each 0 view_workflow ws

-- The choices of a role for the new node.
abbrev pub role_options : List Role → List (String × String)
role_options roles = ("", "Select Role...") ∷ map (λ (r : Role). (r.name, r.name)) roles

unfoldable pub view_editor : Host → State → List (Widget Msg)
view_editor host s =
    text "Add Evaluation Node"
    ∷ input "Step Name" s.new_step_name set_step_name
    ∷ select s.new_step_role (role_options s.roles) set_step_role
    ∷ input "SLA" (decimal s.new_step_sla) (λ t. set_step_sla (host.to_number t))
    ∷ button "Plus" false add
    ∷ text "Blueprint Definition (JSON)"
    ∷ input "" s.blueprint_json set_blueprint
    ∷ []

unfoldable pub view_create : Host → State → List (Widget Msg)
unfolding view_editor
view_create host s =
    button "backdrop" s.is_submitting close_create
      ∷ text "Define Operational Blueprint"
      ∷ text "JSON Source Interface"
      ∷ text "Available Roles"
      ∷ each 0 (λ i (r : Role). text r.name ∷ []) s.roles
    ++ (view_editor host s
        ++ button "Discard" s.is_submitting close_create ∷ when s.is_submitting (spinner ∷ [])
        ++ button (if s.is_submitting then "" else "Commit Blueprint") s.is_submitting commit ∷ [])

abbrev pub is_starting : Option String → Bool
is_starting none = false
is_starting (some id) = true

unfoldable pub view_request : State → Workflow → List (Widget Msg)
view_request s w =
    button "backdrop" (is_starting s.starting) abort
      ∷ text "Initialize Sequence"
      ∷ text w.name
      ∷ text "Request Title *"
      ∷ input "e.g., Budget Approval for Q1 Marketing" s.request_title set_title
      ∷ text "Description"
      ∷ input "Provide additional details about your request..." s.payload set_payload
      ∷ text "Priority"
      ∷ select s.request_priority (("low", "Low") ∷ ("medium", "Medium") ∷ ("high", "High") ∷ [])
          set_priority
      ∷ button "Abort" (is_starting s.starting) abort
      ∷ when (is_starting s.starting) (spinner ∷ [])
    ++ button (if is_starting s.starting then "" else "Start Request") (is_starting s.starting)
        start_request
      ∷ []

unfoldable pub view_modals : Host → State → Option Workflow → List (Widget Msg)
unfolding view_create view_request
view_modals host s none = when s.show_create_modal (view_create host s)
view_modals host s (some w) = when s.show_create_modal (view_create host s) ++ view_request s w

unfoldable pub view : Host → State → List (Widget Msg)
unfolding view_header view_cards view_modals
view host s =
    if s.loading
    then spinner ∷ []
    else view_header (is_admin host s)
      ++ (view_cards s.workflows ++ view_modals host s s.show_payload_modal)
