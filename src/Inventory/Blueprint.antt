-- ===== src/Inventory/Blueprint.antt =====
-- The JSON text of the dialog: what is posted for it, and how a node is added to it.
use workflow_automation_plat.Common.{
  ℕ, suc, ◌+◌, String, true, false, Option, none, some, List, [], ◌∷◌, ◌++◌, length, str_eq,
  decimal, if◌then◌else◌,
}
use workflow_automation_plat.Js.{
  Json, str, num, arr, obj, Fields, field, end, Host, Result, ok, threw, type_error, ◌>>=◌, get,
  as_array, or_else, truthy, map_result, parse, elements, items, set_field,
}
use workflow_automation_plat.Constructor.Nodes.{Role}
use workflow_automation_plat.Constructor.Payload.{
  PayloadStep, Payload, linear_transitions, role_id_of,
}

-- `s.role.toLowerCase()`: a step must have a role here, and it must be a text.
abbrev pub required_role : Host → Option Json → Result String
required_role host (some (str r)) = ok (host.to_lower_case r)
required_role host _ = threw type_error

-- `roles.find(…)`: the test reads the step's role for each role in turn, so not if there is none.
unfoldable pub find_role : Host → List Role → Json → Result (Option Role)
find_role host [] s = ok none
find_role host (r ∷ roles) s =
    let rest = find_role host roles s in
    do
      role ← get "role" s
      wanted ← required_role host role
      if str_eq (host.to_lower_case r.name) wanted then ok (some r) else rest

-- The callback of `data.steps.map` in `handleCreateWorkflow`.
unfoldable pub format_step : Host → List Role → Json → Result PayloadStep
unfolding find_role
format_step host roles s = do
  role ← find_role host roles s
  name ← get "name" s
  description ← get "description" s
  order ← get "order" s
  sla ← get "sla" s
  ok (record {
    name = name;
    description = or_else description (str "");
    step_order = order;
    sla_hours = or_else sla (num 24);
    required_role_id = role_id_of role;
    required_permission_id = none;
    is_conditional = false;
  })

-- What `handleCreateWorkflow` posts; its loop over the steps is the one of the constructor page.
unfoldable pub blueprint_payload : Host → List Role → String → Result Payload
unfolding format_step linear_transitions
blueprint_payload host roles source = do
  data_value ← parse host source
  raw_steps ← get "steps" data_value
  listed ← as_array raw_steps
  steps ← map_result (format_step host roles) listed
  name ← get "name" data_value
  description ← get "description" data_value
  ok (record {
    name = name;
    description = description;
    is_active = true;
    steps = steps;
    transitions = linear_transitions steps;
  })

-- `current.steps?.length || 0`.
abbrev pub count_steps : Host → Option Json → ℕ
count_steps host (some (arr vs)) = length (elements vs)
count_steps host (some (str s)) = host.text_length s
count_steps host (some (obj fs)) = 0
count_steps host _ = 0

-- `[...(current.steps || [])]`: other values that are truthy cannot be iterated.
abbrev pub spread_steps : Host → Option Json → Result (List Json)
spread_steps host (some (arr vs)) = ok (elements vs)
spread_steps host (some (str s)) = if str_eq s "" then ok [] else ok (elements (host.text_items s))
spread_steps host v = if truthy v then threw type_error else ok []

-- `{...current}`.
abbrev pub index_fields : ℕ → List Json → Fields
index_fields i [] = end
index_fields i (v ∷ vs) = field (decimal i) v (index_fields (suc i) vs)

abbrev pub spread_fields : Host → Json → Fields
spread_fields host (obj fs) = fs
spread_fields host (arr vs) = index_fields 0 (elements vs)
spread_fields host (str s) = host.text_fields s
spread_fields host _ = end

unfoldable pub new_node : String → String → ℕ → ℕ → Json
new_node name role order sla = obj (
    field "name" (str name)
      (field "role" (str role) (field "order" (num order) (field "sla" (num sla) end))))

-- The `try` of `handleAddStep`: the blueprint with the new node behind its steps.
unfoldable pub add_node : Host → String → String → ℕ → String → Result Json
unfolding new_node
add_node host name role sla source = do
  current ← parse host source
  steps ← get "steps" current
  old ← spread_steps host steps
  ok (
      obj (
        set_field "steps"
          (arr (items (old ++ new_node name role (count_steps host steps + 1) sla ∷ [])))
          (spread_fields host current)))
