-- ===== src/Constructor/Tests.antt =====
-- The theorems at the states of a run of the page.
use workflow_automation_plat.Common.{ℕ, ◌≡◌, ◌≤◌, arith, refl, inl, inr}
use workflow_automation_plat.Ui.{Offers}
use workflow_automation_plat.Constructor.Nodes.{add_step, default_transitions}
use workflow_automation_plat.Constructor.Page.{update, set_name, add_node, continue, submit}
use workflow_automation_plat.Constructor.View.{view}
use workflow_automation_plat.Constructor.Submitting.{Submits, start, act, submit-Alone}
use workflow_automation_plat.Constructor.Reach.{IsSound, Posts, Reaches-IsSound, submit-Posts}
use workflow_automation_plat.Constructor.Samples.{
  plain_host, draw, named_state, second_state, node_state, third_state, third_state-Reaches,
  submit_offered,
}

Reaches-IsSound_example : IsSound third_state
Reaches-IsSound_example = Reaches-IsSound plain_host third_state-Reaches

submit-Posts_example : Posts third_state (update plain_host draw submit third_state).1
unfolding add_step
submit-Posts_example =
    submit-Posts plain_host draw third_state-Reaches (unfold update in refl) submit_offered

named_state-Submits : Submits plain_host named_state 0
unfolding view update
named_state-Submits =
    act draw (set_name "Leave") start
      (inr (inr (inr (inr (inr (inr (inr (inr (inr (inl ("Leave", refl)))))))))))

second_state-Submits : Submits plain_host second_state 0
unfolding view update
second_state-Submits = act draw continue named_state-Submits (ground arith)

node_state-Submits : Submits plain_host node_state 0
unfolding view update
node_state-Submits = act draw add_node second_state-Submits (ground arith)

third_state-Submits : Submits plain_host third_state 0
unfolding view update add_step default_transitions
third_state-Submits = act draw continue node_state-Submits (ground arith)

abbrev unanswered : ℕ
unanswered = 0

submit-Alone_example :
    (unanswered ≤ 1) × (Offers (view plain_host third_state) submit → unanswered ≡ 0)
submit-Alone_example = submit-Alone plain_host third_state-Submits
