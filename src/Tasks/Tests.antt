-- ===== src/Tasks/Tests.antt =====
-- Runs of the page, and the theorems at concrete states.
use workflow_automation_plat.Common.{ℕ, String, false, none, some, [], ◌∷◌}
use workflow_automation_plat.Tasks.{Task, initial, select, decide, approve, update, tasks_loaded}
use workflow_automation_plat.Tasks.Flow.{World}

abbrev task : String → Task
task id = record {
  request_id = "r1";
  request_step_id = id;
  workflow_name = "Leave";
  step_name = "Approval";
  step_description = none;
  deadline = none;
  is_sla_breached = false;
  request_data = none;
  created_at = 0;
}

abbrev plain : ℕ → String
plain n = ""

abbrev world_listed : World
world_listed = record { page = tasks_loaded (some (task "s1" ∷ [])) initial; waiting = [] }

abbrev world_selected : World
world_selected = record { page = (update (select (task "s1")) world_listed.page).0; waiting = [] }

abbrev world_waiting : World
world_waiting = record {
  page = (update (decide approve) world_selected.page).0;
  waiting = task "s1" ∷ [];
}
