-- ===== src/Dashboard/View.antt =====
-- What the page shows. `ago` words a distance in time, and `label` an audit action in capitals with
-- spaces.
use workflow_automation_plat.Common.{
  ℕ, String, Bool, false, List, [], ◌∷◌, ◌++◌, length, ◌==◌, if◌then◌else◌, concat, map,
}
use workflow_automation_plat.Js.{Host}
use workflow_automation_plat.Ui.{
  Widget, text, number, spinner, button, input, select, link, when, each,
}
use workflow_automation_plat.Dashboard.{
  Stats, Workflow, RecentRequest, AuditLog, State, Msg, open_modal, close_modal, pulse,
  start_request, set_workflow, set_title, set_description, set_priority,
}

unfoldable pub view_header : Bool → List (Widget Msg)
view_header pulsing =
    text "Operational Nexus"
      ∷ text "NexusFlow Dashboard"
      ∷ text
          "High-fidelity orchestration monitoring and real-time system telemetry across the operational grid."
      ∷ button "Start New Request" false open_modal
      ∷ when pulsing (spinner ∷ [])
    ++ button (if pulsing then "Synchronizing Pulse..." else "Initialize Core Pulse") pulsing pulse
      ∷ []

-- `statCards`: each figure with its name.
abbrev pub stat_cards : Stats → List (String × ℕ)
stat_cards s =
    ("Executive Flows", s.active)
    ∷ ("Strategic Tasks", s.pending)
    ∷ ("SLA Incidents", s.overdue)
    ∷ ("Completed", s.completed)
    ∷ []

unfoldable pub view_stats : State → List (Widget Msg)
view_stats s =
    each 0 (λ i (c : String × ℕ). text c.0 ∷ number c.1 ∷ when s.pulsing (text "Live" ∷ []))
      (stat_cards s.stats)

unfoldable pub view_request : Host → (ℕ → String) → ℕ → RecentRequest → List (Widget Msg)
view_request host ago i r =
    link (concat "Request #" (host.short_id r.id)) (concat "/instances/" r.id)
    ∷ text r.status
    ∷ text (concat (ago r.created_at) " ago")
    ∷ []

unfoldable pub view_requests : Host → (ℕ → String) → List RecentRequest → List (Widget Msg)
unfolding view_request
view_requests host ago rs =
    text "Stream Telemetry"
    ∷ link "Full Data Base" "/requests"
    ∷ (if length rs == 0
        then text "Awaiting telemetry stream initialization..." ∷ []
        else each 0 (view_request host ago) rs)

unfoldable pub view_audit : (String → String) → (ℕ → String) → List AuditLog → List (Widget Msg)
view_audit label ago logs =
    text "Security Intel"
    ∷ (if length logs == 0
        then text "Encrypted Buffer Verified" ∷ []
        else each 0
            (λ i (l : AuditLog).
              text (label l.action) ∷ text (concat (ago l.timestamp) " ago") ∷ [])
            logs)

unfoldable pub view_modal : State → List (Widget Msg)
view_modal s =
    button "backdrop" false close_modal
      ∷ text "Initialize New Request"
      ∷ text "Submit operational requirements for processing."
      ∷ text "Select Protocol"
      ∷ select s.new_request_data.workflow_id
          (("", "-- Choose Protocol --") ∷ map (λ (w : Workflow). (w.id, w.name)) s.workflows)
          set_workflow
      ∷ text "Request Title"
      ∷ input "e.g. Server Provisioning for AI Team" s.new_request_data.title set_title
      ∷ text "Context / Description"
      ∷ input "Provide necessary functional details..." s.new_request_data.description
          set_description
      ∷ text "Priority Level"
      ∷ button "low" false (set_priority "low")
      ∷ button "medium" false (set_priority "medium")
      ∷ button "high" false (set_priority "high")
      ∷ button "Cancel" false close_modal
      ∷ when s.is_starting_request (spinner ∷ [])
    ++ button (if s.is_starting_request then "" else "Initialize Request") s.is_starting_request
        start_request
      ∷ []

unfoldable pub view : Host → (String → String) → (ℕ → String) → State → List (Widget Msg)
unfolding view_header view_stats view_requests view_audit view_modal
view host label ago s =
    if s.loading
    then spinner ∷ text "Calibrating NexusFlow Core" ∷ []
    else view_header s.pulsing
      ++ (view_stats s
          ++ (view_requests host ago s.recent_requests
              ++ (view_audit label ago s.audit_logs ++ when s.request_modal_open (view_modal s))))
