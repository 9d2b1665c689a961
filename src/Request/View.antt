-- ===== src/Request/View.antt =====
-- What the page shows. `format` words a date, and `now` is the time of the rendering.
use workflow_automation_plat.Common.{
  ℕ, String, Bool, false, not, Option, none, some, List, [], ◌∷◌, ◌++◌, str_eq, if◌then◌else◌,
  concat, ltb,
}
use workflow_automation_plat.Js.{Host}
use workflow_automation_plat.Ui.{Widget, text, spinner, button, input, link, when, each}
use workflow_automation_plat.Timeline.{StepInfo, sort}
use workflow_automation_plat.Request.{
  RequestInfo, State, Msg, choose, set_note, process, current_step,
}

abbrev pub or_empty : Option String → String
or_empty none = ""
or_empty (some v) = v

abbrev pub is_shown : Option String → Bool
is_shown none = false
is_shown (some v) = not (str_eq v "")

abbrev pub deadline_line : (ℕ → String) → Option ℕ → List (Widget Msg)
deadline_line format none = []
deadline_line format (some d) = text "Expiration" ∷ text (format d) ∷ []

unfoldable pub view_step : (ℕ → String) → ℕ → StepInfo → List (Widget Msg)
view_step format i s =
    text (or_empty s.step_name)
      ∷ when (is_shown s.completed_at) (text (concat "Verified " (or_empty s.completed_at)) ∷ [])
    ++ text "State Vector" ∷ text s.status ∷ deadline_line format s.deadline
    ++ when (is_shown s.outcome)
        (text "Decision Notes" ∷ text (concat "\"" (concat (or_empty s.outcome) "\"")) ∷ [])

-- Past its deadline, the pending step is reported as breached.
unfoldable pub view_pressure : ℕ → Option ℕ → List (Widget Msg)
view_pressure now none = []
view_pressure now (some d) =
    text "SLA Protection"
    ∷ text (if ltb d now then "CRITICAL: BREACH DETECTED" else "NOMINAL: MONITORING ACTIVE")
    ∷ []

unfoldable pub view_choice : State → List (Widget Msg)
view_choice s =
    button "Approve" false (choose "APPROVED")
      ∷ button "Reject" false (choose "REJECTED")
      ∷ text "Strategic Justification"
      ∷ input "Provide the operational context for this decision..." s.note set_note
      ∷ when s.processing (spinner ∷ [])
    ++ button (if s.processing then "" else "Submit Decision") s.processing process
      ∷ text "This action advances the operational step assigned to your identity clearance."
      ∷ []

unfoldable pub view_form : State → ℕ → StepInfo → List (Widget Msg)
unfolding view_pressure view_choice
view_form s now step =
    text "Active Strategic Node" ∷ text (or_empty step.step_name) ∷ view_pressure now step.deadline
    ++ view_choice s

unfoldable pub view_console : State → ℕ → Option StepInfo → List (Widget Msg)
unfolding view_form
view_console s now none =
    text "Security Lock: Sequence finalized or action privilege restricted." ∷ []
view_console s now (some step) = view_form s now step

unfoldable pub view_steps : (ℕ → String) → RequestInfo → List (Widget Msg)
unfolding view_step
view_steps format r = each 0 (view_step format) (sort r.steps)

unfoldable pub view_completion : RequestInfo → List (Widget Msg)
view_completion r =
    when (str_eq r.status "COMPLETED") (
      text "Chain Optimization Completed" ∷ text "All strategic nodes validated successfully." ∷ [])

unfoldable pub view_intel : Host → RequestInfo → List (Widget Msg)
view_intel host r =
    text "Instance Intel"
    ∷ text "Primary Payload"
    ∷ text (host.stringify r.request_data)
    ∷ text "Source Matrix"
    ∷ text r.requester_id
    ∷ text "Core Blueprint"
    ∷ text r.workflow_id
    ∷ []

unfoldable pub view_request : Host → (ℕ → String) → ℕ → State → RequestInfo → List (Widget Msg)
unfolding view_steps view_completion view_console view_intel
view_request host format now s r =
    link "ArrowLeft" "/dashboard"
      ∷ text "Operational Tracker"
      ∷ text (concat "Protocol " r.status)
      ∷ text (concat "Instance #" (host.short_id r.id))
      ∷ text (concat "Initialized " (format r.created_at))
      ∷ text "Execution Timeline"
      ∷ view_steps format r
    ++ (view_completion r
        ++ (text "Decision Console" ∷ view_console s now (current_step r) ++ view_intel host r))

unfoldable pub view : Host → (ℕ → String) → ℕ → State → List (Widget Msg)
unfolding view_request
view host format now s =
    if s.loading then spinner ∷ text "Accessing Instance Memory" ∷ [] else elim s.request [
      | none ↦ text "Request sequence terminated or not found." ∷ []
      | some r ↦ view_request host format now s r
    ]
