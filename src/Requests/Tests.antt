-- ===== src/Requests/Tests.antt =====
-- The theorems at concrete states.
use workflow_automation_plat.Common.{◌≡◌, String, List, [], ◌∷◌, some, [], ◌∷◌}
use workflow_automation_plat.Requests.{WorkflowRequest, initial}
use workflow_automation_plat.Requests.Filtering.{
  Event, chosen, answered, run, last_choice, last_list, run-latest,
}

abbrev request : String → WorkflowRequest
request status = record {
  id = "r1";
  workflow_id = "w1";
  requester_id = "u1";
  status = status;
  created_at = 0;
}

abbrev late : List Event
late =
    chosen "IN_PROGRESS"
    ∷ chosen "COMPLETED"
    ∷ answered (some [])
    ∷ answered (some (request "IN_PROGRESS" ∷ []))
    ∷ []

run-latest_example :
    ((run late initial).status_filter ≡ last_choice late initial.status_filter)
    × ((run late initial).requests ≡ last_list late initial.requests)
run-latest_example = run-latest late initial
