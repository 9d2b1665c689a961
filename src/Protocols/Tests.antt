-- ===== src/Protocols/Tests.antt =====
-- Runs of the page, and the theorems at concrete states.
use workflow_automation_plat.Common.{
  ◌≢◌, ◌↔◌, refl, arith, String, true, false, none, [], ◌∷◌, IsIn, inl, eq_iff,
}
use workflow_automation_plat.Protocols.{Workflow, State, deleted}
use workflow_automation_plat.Protocols.Deletion.{deleted_twice}

abbrev workflow : String → Workflow
workflow id = record {
  id = id;
  name = "Leave";
  description = "";
  steps = none;
  is_active = true;
  created_at = 0;
}

abbrev page : State
page = record { workflows = workflow "w1" ∷ workflow "w2" ∷ workflow "w3" ∷ []; loading = false }

deleted_twice_example :
    let once = (deleted true page.workflows "w1" page).0 in
    (IsIn (workflow "w3") (deleted true once.workflows "w2" once).0.workflows ↔ (
      IsIn (workflow "w3") page.workflows
      × ((workflow "w3").id ≢ (workflow "w1").id)
      × ((workflow "w3").id ≢ (workflow "w2").id)))
    × IsIn (workflow "w1") (deleted true page.workflows "w2" once).0.workflows
deleted_twice_example =
    deleted_twice (workflow "w1") (workflow "w2") (workflow "w3") page (inl refl)
      (ground (arith, eq_iff "w1" "w2"))
