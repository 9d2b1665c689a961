-- ===== src/AdminConsole/Tests.antt =====
-- The console for a user who is no administrator.
use workflow_automation_plat.Common.{◌≡◌, [], ◌∷◌, length, if◌then◌else◌}
use workflow_automation_plat.Rbac.{check_role}
use workflow_automation_plat.Server.Listing.{count_steps}
use workflow_automation_plat.Server.Invariant.{empty_db}
use workflow_automation_plat.AdminConsole.{initial, stats_loaded, view}
use workflow_automation_plat.AdminConsole.Counts.{get_admin_stats, numbers, zeros, view-numbers}
use workflow_automation_plat.Engine.Samples.{plain_python, clerk}

view-numbers_example :
    (numbers (
        view
          (stats_loaded (get_admin_stats plain_python clerk (clerk ∷ []) (empty_db [] [])) initial))
      ≡ (if check_role plain_python clerk "admin"
          then length (clerk ∷ [])
            ∷ length (empty_db [] []).catalog.workflows
            ∷ length (empty_db [] []).requests
            ∷ count_steps (λ x. x.is_sla_breached) (empty_db [] []).requests
            ∷ []
          else zeros))
    × (numbers (view initial) ≡ zeros)
view-numbers_example = view-numbers plain_python clerk (clerk ∷ []) (empty_db [] [])
