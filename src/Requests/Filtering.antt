-- ===== src/Requests/Filtering.antt =====
-- The choices of the filter, and the answers that they ask for, in any order.
use workflow_automation_plat.Common.{◌≡◌, refl, String, Option, none, some, List, [], ◌∷◌}
use workflow_automation_plat.Requests.{WorkflowRequest, State, set_filter, update, requests_loaded}

-- On the page: a filter is chosen, or some request for a list is answered.
pub data Event : Type 0 where
  chosen : String → Event
  answered : Option (List WorkflowRequest) → Event

unfoldable pub step : Event → State → State
unfolding update requests_loaded
step (chosen f) s = (update (set_filter f) s).0
step (answered a) s = requests_loaded a s

-- The events in order, the latest last.
unfoldable pub run : List Event → State → State
unfolding step
run [] s = s
run (e ∷ es) s = run es (step e s)

-- The filter that was chosen last, and the list that was answered last.
abbrev pub last_choice : List Event → String → String
last_choice [] f = f
last_choice (chosen g ∷ es) f = last_choice es g
last_choice (answered a ∷ es) f = last_choice es f

abbrev pub last_list : List Event → List WorkflowRequest → List WorkflowRequest
last_list [] rs = rs
last_list (chosen g ∷ es) rs = last_list es rs
last_list (answered none ∷ es) rs = last_list es rs
last_list (answered (some ss) ∷ es) rs = last_list es ss

-- After any choices of filters and any answers, in any order, the filter reads the latest choice,
-- while the list is that of the latest answer that succeeded, whichever choice it answers; a failed
-- answer leaves the list as it was.
pub run-latest :
    (es : List Event) (s : State)
    → ((run es s).status_filter ≡ last_choice es s.status_filter)
      × ((run es s).requests ≡ last_list es s.requests)
unfolding run
run-latest [] s = (refl, refl)
run-latest (chosen f ∷ es) s = run-latest es (step (chosen f) s)
run-latest (answered none ∷ es) s = run-latest es (step (answered none) s)
run-latest (answered (some rs) ∷ es) s = run-latest es (step (answered (some rs)) s)
