-- ===== src/Tasks/View.antt =====
-- What the page shows: a spinner, or the tasks with the dialog of the selected one. `format` is the
-- distance to a time as date-fns words it.
use workflow_automation_plat.Common.{
  ℕ, ◌+◌, String, Bool, false, not, Option, none, some, List, [], ◌∷◌, ◌++◌, length, ◌==◌, str_eq,
  if◌then◌else◌, concat, decimal,
}
use workflow_automation_plat.Ui.{Widget, text, spinner, button, input, when, each}
use workflow_automation_plat.Timeline.{StepInfo, sort}
use workflow_automation_plat.Tasks.{
  Task, Details, State, approve, reject, Msg, select, close, browse, set_comment, decide,
}

-- `v && …` and `v || d` on a text that may be missing.
abbrev pub or_text : Option String → String → String
or_text none d = d
or_text (some v) d = if str_eq v "" then d else v

abbrev pub is_shown : Option String → Bool
is_shown none = false
is_shown (some v) = not (str_eq v "")

unfoldable pub view_task : (ℕ → String) → ℕ → Task → List (Widget Msg)
view_task format i t =
    button t.step_name false (select t) ∷ when t.is_sla_breached (text "SLA Incident Level 1" ∷ [])
    ++ text t.workflow_name
      ∷ text t.step_name
      ∷ when (is_shown t.step_description) (text (or_text t.step_description "") ∷ [])
    ++ text (concat "Deadline: " (elim t.deadline [ none ↦ "UNRESTRICTED" | some d ↦ format d ]))
      ∷ text (concat "Initialized " (format t.created_at))
      ∷ button "Review Request" false (select t)
      ∷ text "Advances protocol state for your assigned role"
      ∷ []

unfoldable pub view_step : ℕ → StepInfo → List (Widget Msg)
view_step i s = text (or_text s.step_name (concat "Step " (decimal (i + 1)))) ∷ text s.status ∷ []

unfoldable pub view_timeline : Option Details → List (Widget Msg)
unfolding view_step
view_timeline none = spinner ∷ []
view_timeline (some d) = elim d.steps [ none ↦ [] | some ss ↦ each 0 view_step (sort ss) ]

unfoldable pub view_context : Option (List (String × String)) → List (Widget Msg)
view_context none = text "No context data available." ∷ []
view_context (some kvs) =
    each 0 (λ i (kv : String × String). text (concat kv.0 ":") ∷ text kv.1 ∷ []) kvs

unfoldable pub view_intro : Task → List (Widget Msg)
view_intro t =
    button "backdrop" false close
    ∷ text "Execution Protocol"
    ∷ text t.workflow_name
    ∷ text t.step_name
    ∷ button "Close X" false close
    ∷ text "Description"
    ∷ text (or_text t.step_description "No description provided for this operational node.")
    ∷ text "Request Context"
    ∷ []

unfoldable pub view_console : State → List (Widget Msg)
view_console s =
    text "Executive Commentary"
    ∷ input "Provide strategic context for your decision..." s.comment set_comment
    ∷ button "REJECT" s.processing (decide reject)
    ∷ button (if s.processing then "" else "APPROVE REQUEST") s.processing (decide approve)
    ∷ when s.processing (spinner ∷ [])

unfoldable pub view_dialog : State → Option Task → List (Widget Msg)
unfolding view_intro view_timeline view_context view_console
view_dialog s none = []
view_dialog s (some t) =
    view_intro t
    ++ (view_context t.request_data
        ++ (text "Timeline" ∷ view_timeline s.request_details ++ view_console s))

unfoldable pub view_list : (ℕ → String) → List Task → List (Widget Msg)
unfolding view_task
view_list format ts =
    text "Action Buffer"
    ∷ text "Strategic Tasks"
    ∷ text "Workflow nodes requiring high-privileged decision and operational action."
    ∷ (if length ts == 0
        then text "Strategic queue clear. All operational nodes stable."
          ∷ button "Initialize New Strategy" false browse
          ∷ []
        else each 0 (view_task format) ts)

unfoldable pub view : (ℕ → String) → State → List (Widget Msg)
unfolding view_list view_dialog
view format s =
    if s.loading then spinner ∷ [] else view_list format s.tasks ++ view_dialog s s.selected_task
