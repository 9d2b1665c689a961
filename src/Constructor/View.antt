-- ===== src/Constructor/View.antt =====
-- What the page shows.
use workflow_automation_plat.Common.{
  ℕ, ◌+◌, String, false, Option, none, some, List, [], ◌∷◌, ◌++◌, map, length, ltb, ◌==◌,
  if◌then◌else◌, str_eq,
}
use workflow_automation_plat.Js.{Host, obj, field, end, num, str}
use workflow_automation_plat.Ui.{
  Widget, text, number, inert, spinner, button, input, select, when, each,
}
use workflow_automation_plat.Constructor.Nodes.{Role, Step, Edit}
use workflow_automation_plat.Constructor.Page.{
  Mode, wizard, json, State, Msg, set_mode, set_json_source, set_name, set_description, insert_role,
  add_node, remove_node, edit_node, back, continue, submit,
}

unfoldable pub view_header : List (Widget Msg)
view_header =
    text "Protocol Constructor"
    ∷ text "Define New Strategy"
    ∷ text
        "Admins define core operational blueprints here. Standard users initialize instances via the “Inventory” portal."
    ∷ button "Wizard" false (set_mode wizard)
    ∷ button "Source" false (set_mode json)
    ∷ []

-- A check mark stands for each step before the current one.
unfoldable pub view_progress : ℕ → List (Widget Msg)
view_progress step =
    each 0 (λ i n. (if ltb n step then text "✓" else number n) ∷ []) (1 ∷ 2 ∷ 3 ∷ [])

unfoldable pub view_json : State → List (Widget Msg)
view_json s =
    text "Blueprint Definition"
      ∷ text "JSON Strict Schema"
      ∷ input "" s.json_source set_json_source
      ∷ text "Node Explorer"
      ∷ inert "Search Authorities..."
      ∷ text "Available Roles"
      ∷ each 0 (λ i r. text r.name ∷ button "→" false (insert_role r) ∷ []) s.roles
    ++ text
        "Linear transitions are synthesized automatically. Ensure \"order\" keys are sequential."
      ∷ []

unfoldable pub view_name : State → List (Widget Msg)
view_name s =
    text "Protocol Identifier"
    ∷ input "e.g. CORE_FINANCE_APPROVAL_V1" s.name set_name
    ∷ text "Strategy Description"
    ∷ input "Define the purpose and scope of this operational workflow..." s.description
        set_description
    ∷ []

-- `v || ""`.
abbrev pub or_empty : Option String → String
or_empty none = ""
or_empty (some v) = v

-- `v || undefined`.
abbrev pub or_undefined : String → Option String
or_undefined v = if str_eq v "" then none else some v

unfoldable pub view_node : List Role → ℕ → Step → List (Widget Msg)
view_node roles i s =
    button "Remove" false (remove_node i)
    ∷ text "Node Name"
    ∷ input "Name" s.name (λ t. edit_node i (Edit.name t))
    ∷ text "Required Authority"
    ∷ select (or_empty s.required_role_id)
        (("", "No Restriction") ∷ map (λ (r : Role). (r.id, r.name)) roles)
        (λ t. edit_node i (Edit.required_role_id (or_undefined t)))
    ∷ text "Description"
    ∷ input "What happens at this step?" s.description (λ t. edit_node i (Edit.description t))
    ∷ number (i + 1)
    ∷ []

unfoldable pub view_nodes : State → List (Widget Msg)
unfolding view_node
view_nodes s =
    text "Execution Nodes"
      ∷ button "Add Node" false add_node
      ∷ each 0 (view_node s.roles) s.workflow_steps
    ++ when (length s.workflow_steps == 0) (text "No execution nodes defined" ∷ [])

unfoldable pub view_review : Host → State → List (Widget Msg)
view_review host s =
    text "Protocol Matrix Validated"
    ∷ text "The system has automatically generated a linear execution logic for your"
    ∷ number (length s.workflow_steps)
    ∷ text "nodes. Standard \"Approve\" and \"Reject\" pathways have been synthesized."
    ∷ text (
        host.stringify (
          obj (
            field "protocol" (str s.name) (
              field "nodes" (num (length s.workflow_steps)) (
                field "paths" (num (length s.transitions))
                  (field "topology" (str "LINEAR_OPTIMIZED") end))))))
    ∷ []

unfoldable pub view_content : Host → State → Mode → List (Widget Msg)
unfolding view_json view_name view_nodes view_review
view_content host s json = view_json s
view_content host s wizard =
    when (s.step == 1) (view_name s)
    ++ (when (s.step == 2) (view_nodes s) ++ when (s.step == 3) (view_review host s))

unfoldable pub view_footer : State → Mode → List (Widget Msg)
view_footer s wizard =
    button "Back" (s.step == 1) back
    ∷ (if ltb s.step 3
        then button "Continue" false continue ∷ []
        else when s.is_submitting (spinner ∷ [])
          ++ button "Initialize Protocol" s.is_submitting submit ∷ [])
view_footer s json =
    when s.is_submitting (spinner ∷ [])
    ++ button "Commit Source Blueprint" s.is_submitting submit ∷ []

unfoldable pub view : Host → State → List (Widget Msg)
unfolding view_header view_progress view_content view_footer
view host s =
    view_header ++ (view_progress s.step ++ (view_content host s s.mode ++ view_footer s s.mode))
