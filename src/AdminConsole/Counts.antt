-- ===== src/AdminConsole/Counts.antt =====
-- What the console shows of the server's counts.
use workflow_automation_plat.Common.{
  ℕ, ◌≡◌, refl, Option, none, some, List, [], ◌∷◌, length, if◌then◌else◌, Bool-cases, inl, inr,
}
use workflow_automation_plat.Ui.{Widget, number}
use workflow_automation_plat.Engine.Conditions.{Python}
use workflow_automation_plat.Engine.Process.{User}
use workflow_automation_plat.Rbac.{check_role}
use workflow_automation_plat.Server.Store.{Db}
use workflow_automation_plat.Server.Listing.{count_steps}
use workflow_automation_plat.AdminConsole.{
  Stats, Msg, initial, stats_loaded, metrics, view_metric, view,
}

-- `get_admin_stats`: `none` is 403.
unfoldable pub get_admin_stats : Python → User → List User → Db → Option Stats
get_admin_stats py me users db =
    if check_role py me "admin"
    then some (record {
      users = length users;
      workflows = length db.catalog.workflows;
      requests = length db.requests;
      sla_breaches = count_steps (λ x. x.is_sla_breached) db.requests;
    })
    else none

-- The numbers that a page shows.
abbrev pub numbers : List (Widget Msg) → List ℕ
numbers [] = []
numbers (number n ∷ ws) = n ∷ numbers ws
numbers (_ ∷ ws) = numbers ws

abbrev pub zeros : List ℕ
zeros = 0 ∷ 0 ∷ 0 ∷ 0 ∷ []

-- To an administrator the console shows how many users, workflows, requests and breached steps there
-- are. To everybody else, and until the answer arrives, it shows four zeros, as it would for an
-- empty system.
pub view-numbers :
    (py : Python) (me : User) (users : List User) (db : Db)
    → (numbers (view (stats_loaded (get_admin_stats py me users db) initial)) ≡ (
        if check_role py me "admin"
        then length users
          ∷ length db.catalog.workflows
          ∷ length db.requests
          ∷ count_steps (λ x. x.is_sla_breached) db.requests
          ∷ []
        else zeros))
      × (numbers (view initial) ≡ zeros)
unfolding view metrics view_metric stats_loaded get_admin_stats
view-numbers py me users db = elim (Bool-cases (check_role py me "admin")) [
  | inl e ↦ rw e (refl, refl)
  | inr e ↦ rw e (refl, refl)
]
