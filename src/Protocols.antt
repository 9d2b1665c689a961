-- ===== src/Protocols.antt =====
-- frontend/src/app/admin/workflows/page.tsx: the administrator's list of workflows, which may be
-- deleted one by one.
pub mod Deletion
mod Tests
use workflow_automation_plat.Common.{
  ℕ, String, Bool, true, false, not, Option, none, some, List, [], ◌∷◌, ◌++◌, keep, length, str_eq,
  ◌==◌, if◌then◌else◌, concat, decimal,
}
use workflow_automation_plat.Ui.{Widget, text, spinner, button, each}

-- A workflow, with the length of its `steps` where the server sends them.
pub record Workflow : Type 0 where
  pub id : String
  pub name : String
  pub description : String
  pub steps : Option ℕ
  pub is_active : Bool
  pub created_at : ℕ

pub record State : Type 0 where
  pub workflows : List Workflow
  pub loading : Bool

pub data Effect : Type 0 where
  delete_workflow : String → Effect
  alert push : String → Effect

pub data Msg : Type 0 where
  delete : String → Msg
  create : Msg

abbrev pub initial : State
initial = record { workflows = []; loading = true }

-- The answer to `fetchWorkflows`.
unfoldable pub workflows_loaded : Option (List Workflow) → State → State
workflows_loaded (some ws) s = record s { workflows = ws; loading = false }
workflows_loaded none s = record s { loading = false }

-- `handleDelete` up to the request, which is sent if the user confirms.
unfoldable pub handle_delete : Bool → String → List Effect
handle_delete confirmed id = if confirmed then delete_workflow id ∷ [] else []

unfoldable pub update : Bool → Msg → State → State × List Effect
unfolding handle_delete
update confirmed (delete id) s = (s, handle_delete confirmed id)
update confirmed create s = (s, push "/admin/workflows/create" ∷ [])

unfoldable pub without : String → List Workflow → List Workflow
without id ws = keep (λ (w : Workflow). not (str_eq w.id id)) ws

-- The rest of `handleDelete`. The list that it filters is `seen`, the one of the rendering in which
-- the button was clicked, and not the page's list at the time of the answer.
unfoldable pub deleted : Bool → List Workflow → String → State → State × List Effect
unfolding without
deleted true seen id s = (record s { workflows = without id seen }, [])
deleted false seen id s =
    (s, alert "Failed to delete workflow. Ensure it has no active requests." ∷ [])

unfoldable pub view_workflow : (ℕ → String) → ℕ → Workflow → List (Widget Msg)
view_workflow format i w =
    text w.name
    ∷ text w.description
    ∷ text "Complexity"
    ∷ text (concat (decimal (elim w.steps [ none ↦ 0 | some n ↦ n ])) " Nodes")
    ∷ text "Created"
    ∷ text (concat (format w.created_at) " ago")
    ∷ button "Trash2" false (delete w.id)
    ∷ []

unfoldable pub view : (ℕ → String) → State → List (Widget Msg)
unfolding view_workflow
view format s =
    if s.loading
    then spinner ∷ []
    else text "System Administration"
      ∷ text "Workflow Protocols"
      ∷ text "Define and manage the operational logic matrices for the platform."
      ∷ button "Create New Protocol" false create
      ∷ (if length s.workflows == 0
          then text "No protocols defined." ∷ []
          else each 0 (view_workflow format) s.workflows)
