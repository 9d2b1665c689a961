-- ===== src/Server/History.antt =====
-- What the history of a request in the database tells.
use workflow_automation_plat.Common.{◌≡◌, ◌⊎◌, refl, subst, List, [], ◌∷◌, All-IsIn, IsIn}
use workflow_automation_plat.Lifecycle.{RequestStatus, created, approved, rejected, completed}
use workflow_automation_plat.Lifecycle.Runs.{IsRun, IsRun-decided}
use workflow_automation_plat.Engine.Conditions.{Python}
use workflow_automation_plat.Engine.Process.{StateHistory}
use workflow_automation_plat.Engine.Progress.{IsTrail}
use workflow_automation_plat.Server.Store.{RequestRow, Db}
use workflow_automation_plat.Server.Kept.{IsKept}
use workflow_automation_plat.Server.Invariant.{Reaches, Reaches-AllKept}

-- The statuses that a request has gone through after CREATED.
abbrev pub statuses : List StateHistory → List RequestStatus
statuses [] = []
statuses (h ∷ hs) = h.to_status ∷ statuses hs

statuses-IsRun :
    (a b : RequestStatus) (hs : List StateHistory) → IsTrail a hs b → IsRun a (statuses hs) b
statuses-IsRun a b [] e = e
statuses-IsRun a b (h ∷ hs) (e, v, t) = (v, statuses-IsRun h.to_status b hs t)

-- In every state that the database reaches, the history of a completed request says that it was
-- approved or that it was rejected before.
pub Reaches-decided :
    (py : Python) {db : Db} (r : RequestRow)
    → Reaches py db
    → IsIn r db.requests
    → r.state.status ≡ completed
    → IsIn approved (statuses r.state.history) ⊎ IsIn rejected (statuses r.state.history)
Reaches-decided py {db} r h i e =
    let kept =
      All-IsIn (λ (q : RequestRow). IsKept q.state) db.requests r (Reaches-AllKept py h) i in
    let trail = statuses-IsRun created r.state.status r.state.history kept.0.0 in
    IsRun-decided created (statuses r.state.history) refl
      (subst (IsRun created (statuses r.state.history)) e trail)
