-- ===== src/Constructor/Payload.antt =====
-- What `handleSubmit` posts: the wizard's steps and transitions, or those of the JSON text.
-- `undefined` is `none`, and a property whose value is `undefined` is not sent. The identifiers of
-- the required role and permission are `none` for `null` and where they are not sent.
use workflow_automation_plat.Common.{
  String, Bool, true, false, Option, none, some, List, [], ◌∷◌, map, find, str_eq, if◌then◌else◌,
  ◌||◌,
}
use mathlib.Core.Option
use workflow_automation_plat.Js.{
  Json, null, str, num, Host, Result, ok, threw, type_error, ◌>>=◌, get, as_array, or_else,
  map_result, parse,
}
use workflow_automation_plat.Constructor.Nodes.{Role, Step, Transition}

pub record PayloadStep : Type 0 where
  pub name : Option Json
  pub description : Json
  pub step_order : Option Json
  pub sla_hours : Json
  pub required_role_id : Option String
  pub required_permission_id : Option String
  pub is_conditional : Bool

pub record PayloadTransition : Type 0 where
  pub from_step_order : Option Json
  pub to_step_order : Option Json
  pub outcome : String

pub record Payload : Type 0 where
  pub name : Option Json
  pub description : Option Json
  pub is_active : Bool
  pub steps : List PayloadStep
  pub transitions : List PayloadTransition

-- `v || null` on an identifier: the empty text counts as none.
abbrev pub or_null : Option String → Option String
or_null none = none
or_null (some v) = if str_eq v "" then none else some v

-- `workflowSteps.find(s => s.tempId === id)`: no step has the identifier `undefined`.
abbrev pub find_step : List Step → Option String → Option Step
find_step steps none = none
find_step steps (some id) = find (λ s. str_eq s.temp_id id) steps

abbrev pub order_of : Option Step → Option Json
order_of s = Option.map (λ (t : Step). num t.step_order) s

unfoldable pub format_transition : List Step → Transition → PayloadTransition
format_transition steps t = record {
  from_step_order = order_of (find_step steps (some t.from_step_temp_id));
  to_step_order = order_of (find_step steps t.to_step_temp_id);
  outcome = t.outcome;
}

unfoldable pub format_step : Step → PayloadStep
format_step s = record {
  name = some (str s.name);
  description = str s.description;
  step_order = some (num s.step_order);
  sla_hours = num s.sla_hours;
  required_role_id = or_null s.required_role_id;
  required_permission_id = or_null s.required_permission_id;
  is_conditional = s.is_conditional;
}

-- The wizard's branch of `handleSubmit`.
unfoldable pub wizard_payload : String → String → List Step → List Transition → Payload
unfolding format_step format_transition
wizard_payload name description steps transitions = record {
  name = some (str name);
  description = some (str description);
  is_active = true;
  steps = map format_step steps;
  transitions = map (format_transition steps) transitions;
}

-- `s.role?.toLowerCase()`: only a text has that method.
abbrev pub lower_role : Host → Option Json → Result (Option String)
lower_role host none = ok none
lower_role host (some null) = ok none
lower_role host (some (str r)) = ok (some (host.to_lower_case r))
lower_role host (some v) = threw type_error

abbrev pub is_text : Option Json → String → Bool
is_text (some (str s)) t = str_eq s t
is_text _ t = false

abbrev pub is_some_text : Option String → String → Bool
is_some_text (some s) t = str_eq s t
is_some_text none t = false

-- `roles.find(…)`: the test is run on each role in turn, so with no role it never throws.
unfoldable pub find_role : Host → List Role → Json → Result (Option Role)
find_role host [] s = ok none
find_role host (r ∷ roles) s =
    let rest = find_role host roles s in
    do
      role ← get "role" s
      wanted ← lower_role host role
      role_id ← get "role_id" s
      if is_some_text wanted (host.to_lower_case r.name) || is_text role_id r.id
          then ok (some r)
          else rest

abbrev pub role_id_of : Option Role → Option String
role_id_of r = Option.map (λ (t : Role). t.id) r

-- The callback of `data.steps.map` in the JSON branch.
unfoldable pub format_json_step : Host → List Role → Json → Result PayloadStep
unfolding find_role
format_json_step host roles s = do
  role ← find_role host roles s
  name ← get "name" s
  description ← get "description" s
  order ← get "order" s
  sla ← get "sla" s
  ok (record {
    name = name;
    description = or_else description (str "");
    step_order = order;
    sla_hours = or_else sla (num 24);
    required_role_id = role_id_of role;
    required_permission_id = none;
    is_conditional = false;
  })

-- `next ? next.step_order : null`.
abbrev pub next_order : List PayloadStep → Option Json
next_order [] = some null
next_order (next ∷ _) = next.step_order

-- The loop that generates one transition for each step.
unfoldable pub linear_transitions : List PayloadStep → List PayloadTransition
linear_transitions [] = []
linear_transitions (current ∷ rest) =
    record {
      from_step_order = current.step_order;
      to_step_order = next_order rest;
      outcome = "APPROVED";
    }
    ∷ linear_transitions rest

-- The JSON branch of `handleSubmit`.
unfoldable pub json_payload : Host → List Role → String → Result Payload
unfolding format_json_step linear_transitions
json_payload host roles source = do
  data_value ← parse host source
  raw_steps ← get "steps" data_value
  listed ← as_array raw_steps
  steps ← map_result (format_json_step host roles) listed
  name ← get "name" data_value
  description ← get "description" data_value
  ok (record {
    name = name;
    description = description;
    is_active = true;
    steps = steps;
    transitions = linear_transitions steps;
  })
