-- ===== src/Layout/Tests.antt =====
-- The theorem at concrete roles.
use workflow_automation_plat.Common.{String, List, [], ◌∷◌}

abbrev manager : List String
manager = "auditor" ∷ "strategic_node" ∷ []
