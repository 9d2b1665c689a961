-- ===== src/Dashboard/Tests.antt =====
-- A run of the page, and the theorem at the state that it reaches.
use workflow_automation_plat.Common.{
  ℕ, ◌≡◌, ◌≢◌, ◌⊎◌, refl, inl, inr, arith, String, none, some, [], ◌∷◌,
}
use workflow_automation_plat.Js.{Host, end, nil}
use workflow_automation_plat.Ui.{Offers}
use workflow_automation_plat.Dashboard.{
  State, Msg, Loaded, initial, data_loaded, update, open_modal, set_title, set_workflow,
  start_request, post_request,
}
use workflow_automation_plat.Dashboard.View.{
  view, view_header, view_stats, view_requests, view_audit, view_modal,
}
use workflow_automation_plat.Dashboard.Starting.{
  Reaches, start, act, loaded, posts, start_request-posts,
}

abbrev plain_host : Host
plain_host = record {
  to_lower_case = λ t. t;
  parse_json = λ t. none;
  stringify = λ v. "";
  short_id = λ t. t;
  spaced = λ t. t;
  to_number = λ t. 0;
  text_length = λ t. 0;
  text_fields = λ t. end;
  text_items = λ t. nil;
}

abbrev plain : String → String
plain t = t

abbrev ago : ℕ → String
ago n = ""

abbrev nothing : ℕ
nothing = 0

abbrev figures : Loaded
figures = record {
  stats = record { active = 1; completed = 0; overdue = 0; pending = 1 };
  requests = [];
  audit = [];
  workflows = record { id = "w1"; name = "Leave" } ∷ [];
}

abbrev loaded_state : State
loaded_state = data_loaded (some figures) initial

abbrev step_of : Msg → State → State
step_of m s = (update m s).0

abbrev open_state : State
open_state = step_of open_modal loaded_state

abbrev chosen_state : State
chosen_state = step_of (set_workflow "w1") open_state

abbrev titled_state : State
titled_state = step_of (set_title "July") chosen_state

open_state-Reaches : Reaches plain_host plain ago open_state 0 0
unfolding view view_header view_stats view_requests view_audit view_modal update data_loaded
open_state-Reaches = act open_modal (loaded (some figures) start) (ground arith)

chosen_state-Reaches : Reaches plain_host plain ago chosen_state 0 0
unfolding view view_header view_stats view_requests view_audit view_modal update data_loaded
chosen_state-Reaches = act (set_workflow "w1") open_state-Reaches (
    inr (
      inr (
        inr (
          inr (
            inr (
              inr (
                inr (
                  inr (
                    inr (
                      inr (
                        inr (
                          inr (
                            inr (
                              inr (
                                inr (
                                  inr (
                                    inr (
                                      inr (
                                        inr (
                                          inr (
                                            inr (
                                              inr (
                                                inl (
                                                  ("w1", "Leave"),
                                                  inr (inl refl),
                                                  refl,
                                                ))))))))))))))))))))))))

titled_state-Reaches : Reaches plain_host plain ago titled_state 0 0
unfolding view view_header view_stats view_requests view_audit view_modal update data_loaded
titled_state-Reaches = act (set_title "July") chosen_state-Reaches (ground arith)

start_request_offered : Offers (view plain_host plain ago titled_state) start_request
unfolding view view_header view_stats view_requests view_audit view_modal update data_loaded
start_request_offered = ground arith

start_request-posts_example :
    (nothing ≡ 0)
    × (nothing ≡ 0)
    × ((titled_state.new_request_data.workflow_id ≢ "")
        → (titled_state.new_request_data.title ≢ "")
        → (update start_request titled_state).1 ≡ post_request titled_state.new_request_data ∷ [])
    × ((titled_state.new_request_data.workflow_id ≡ "") ⊎ (titled_state.new_request_data.title ≡ "")
        → posts (update start_request titled_state).1 ≡ 0)
start_request-posts_example =
    start_request-posts plain_host plain ago titled_state-Reaches start_request_offered
