-- ===== src/Tasks/Flow.antt =====
-- The page together with the decisions that it waits for.
use workflow_automation_plat.Common.{
  ℕ, ◌≡◌, String, Bool, false, Option, some, List, [], ◌∷◌, ◌++◌, length, get_elem?, remove_at, All,
  if◌then◌else◌,
}
use workflow_automation_plat.Ui.{Widget, Offers, Permits}
use workflow_automation_plat.Tasks.{
  Task, Details, State, Msg, decide, initial, update, tasks_loaded, details_loaded,
  decision_answered,
}
use workflow_automation_plat.Tasks.View.{view}

-- A decision is offered only in the dialog of a selected task, and while none waits.
abbrev pub IsAllowed : State → Msg → Type 0
IsAllowed s (decide a) = (s.processing ≡ false) × ((t : Task) × (s.selected_task ≡ some t))
IsAllowed s _ = Unit

module _ (format : ℕ → String) (s : State) where
  abbrev Good : List (Widget Msg) → Type 0
  Good ws = All (Permits (IsAllowed s)) ws

pub record World : Type 0 where
  pub page : State
  -- The tasks whose decisions have not been answered.
  pub waiting : List Task

-- The decision that an action sends off.
abbrev pub sent : Msg → Option Task → List Task
sent (decide a) (some t) = t ∷ []
sent _ _ = []

-- The user works a control, or the server answers one of the requests.
pub data Happens (format : ℕ → String) (w : World) : World → Type 0 where
  act :
      (m : Msg)
      → Offers (view format w.page) m
      → Happens format w (record {
        page = (update m w.page).0;
        waiting = w.waiting ++ sent m w.page.selected_task;
      })
  answered :
      (accepted : Bool) (i : ℕ) (t : Task)
      → get_elem? w.waiting i ≡ some t
      → Happens format w (record {
        page = (decision_answered accepted t w.page).0;
        waiting = remove_at i w.waiting;
      })
  listed : (ts : Option (List Task)) → Happens format w (record w { page = tasks_loaded ts w.page })
  detailed : (d : Option Details) → Happens format w (record w { page = details_loaded d w.page })

pub data Reaches (format : ℕ → String) : World → Type 0 where
  start : Reaches format (record { page = initial; waiting = [] })
  next : {v w : World} → Reaches format v → Happens format v w → Reaches format w

-- One decision waits while the page is processing, and none otherwise.
abbrev pub IsSingle : World → Type 0
IsSingle w = length w.waiting ≡ (if w.page.processing then 1 else 0)
