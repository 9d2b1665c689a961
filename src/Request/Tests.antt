-- ===== src/Request/Tests.antt =====
-- A run of the page, and the theorem at the state that it reaches.
use workflow_automation_plat.Common.{ℕ, ◌≡◌, arith, String, none, some, [], ◌∷◌}
use workflow_automation_plat.Js.{Host, null, end, nil}
use workflow_automation_plat.Ui.{Offers}
use workflow_automation_plat.Timeline.{StepInfo, sort, insert}
use workflow_automation_plat.Request.{
  RequestInfo, State, initial, request_loaded, process, update, post_process, choose,
}
use workflow_automation_plat.Request.View.{view, view_step}
use workflow_automation_plat.Request.Console.{
  HasPending, IsOutcome, Reaches, start, act, loaded, process_posts,
}

abbrev plain_host : Host
plain_host = record {
  to_lower_case = λ t. t;
  parse_json = λ t. none;
  stringify = λ v. "";
  short_id = λ t. t;
  spaced = λ t. t;
  to_number = λ t. 0;
  text_length = λ t. 0;
  text_fields = λ t. end;
  text_items = λ t. nil;
}

abbrev plain : ℕ → String
plain n = ""

abbrev pending_step : StepInfo
pending_step = record {
  id = "s1";
  step_name = some "Approval";
  step_order = some 1;
  status = "PENDING";
  completed_at = none;
  deadline = some 10;
  outcome = none;
}

abbrev info : RequestInfo
info = record {
  id = "r1";
  status = "IN_PROGRESS";
  steps = pending_step ∷ [];
  request_data = null;
  requester_id = "u1";
  workflow_id = "w1";
  created_at = 0;
}

abbrev loaded_state : State
loaded_state = request_loaded (some info) initial

abbrev rejecting_state : State
rejecting_state = (update (choose "REJECTED") loaded_state).0

rejecting_state-Reaches : Reaches plain_host plain rejecting_state 0 0
unfolding view view_step sort insert update request_loaded
rejecting_state-Reaches = act 20 (choose "REJECTED") (loaded (some info) start) (ground arith)

rejecting_state-Offers : Offers (view plain_host plain 20 rejecting_state) process
unfolding view view_step sort insert update request_loaded
rejecting_state-Offers = ground arith

process_posts_example :
    (◌≡◌ {A = ℕ} 0 0)
    × (◌≡◌ {A = ℕ} 0 0)
    × HasPending rejecting_state
    × IsOutcome rejecting_state.outcome
    × ((update process rejecting_state).1
        ≡ post_process rejecting_state.outcome rejecting_state.note ∷ [])
process_posts_example =
    process_posts plain_host plain 20 rejecting_state-Reaches rejecting_state-Offers
