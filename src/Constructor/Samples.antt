-- ===== src/Constructor/Samples.antt =====
-- A run of the page: a workflow is named, gets a node, and is reviewed.
use workflow_automation_plat.Common.{refl, arith, none, inl, inr, eq_iff}
use workflow_automation_plat.Js.{Host, end, nil}
use workflow_automation_plat.Ui.{Offers}
use workflow_automation_plat.Constructor.Nodes.{add_step, default_transitions}
use workflow_automation_plat.Constructor.Page.{
  State, Msg, Draw, initial, update, set_name, add_node, continue, submit,
}
use workflow_automation_plat.Constructor.View.{view}
use workflow_automation_plat.Constructor.Reach.{act, Reaches, start, next}

abbrev pub plain_host : Host
plain_host = record {
  to_lower_case = λ t. t;
  parse_json = λ t. none;
  stringify = λ v. "";
  short_id = λ t. t;
  spaced = λ t. t;
  to_number = λ t. 0;
  text_length = λ t. 0;
  text_fields = λ t. end;
  text_items = λ t. nil;
}

abbrev pub draw : Draw
draw = record { temp_id = "k3x9"; replaced = "" }

abbrev pub step_of : Msg → State → State
step_of m s = (update plain_host draw m s).0

abbrev pub named_state : State
named_state = step_of (set_name "Leave") initial

abbrev pub second_state : State
second_state = step_of continue named_state

abbrev pub node_state : State
node_state = step_of add_node second_state

abbrev pub third_state : State
third_state = step_of continue node_state

pub named_state-Reaches : Reaches plain_host named_state
unfolding view
named_state-Reaches = next start (
    act draw (set_name "Leave")
      (inr (inr (inr (inr (inr (inr (inr (inr (inr (inl ("Leave", refl))))))))))) tt)

pub second_state-Reaches : Reaches plain_host second_state
unfolding view update
second_state-Reaches = next named_state-Reaches (act draw continue (ground arith) tt)

pub node_state-Reaches : Reaches plain_host node_state
unfolding view update
node_state-Reaches = next second_state-Reaches (act draw add_node (ground arith) tt)

pub third_state-Reaches : Reaches plain_host third_state
unfolding view update add_step default_transitions
third_state-Reaches = next node_state-Reaches (
    act (record { temp_id = "p0q7"; replaced = "" }) continue (ground arith)
      (ground (arith, eq_iff "k3x9" "p0q7"), tt))

pub submit_offered : Offers (view plain_host third_state) submit
unfolding view update add_step default_transitions
submit_offered = ground arith
