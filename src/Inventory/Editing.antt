-- ===== src/Inventory/Editing.antt =====
-- Adding nodes to the blueprint, and posting it.
use workflow_automation_plat.Common.{
  ℕ, zero, suc, ◌+◌, ◌≡◌, ◌≢◌, refl, ap, arith, String, Option, none, some, List, [], ◌∷◌, ◌++◌,
  length, eq_iff, eq_refl, get_elem?,
}
use mathlib.Core.Option
use workflow_automation_plat.Js.{
  Json, null, arr, obj, Fields, field, end, Host, Result, ok, elements, items, set_field,
  drop_field, lookup_field, parse,
}
use workflow_automation_plat.Constructor.Payload.{
  PayloadStep, PayloadTransition, linear_transitions,
}
use workflow_automation_plat.Inventory.Blueprint.{add_node, new_node}
use workflow_automation_plat.Inventory.Page.{State, handle_add_step}

elements-items : (vs : List Json) → elements (items vs) ≡ vs
elements-items [] = refl
elements-items (v ∷ vs) = ap (λ t. v ∷ t) (elements-items vs)

lookup-drop_self : (k : String) (fs : Fields) → lookup_field k (drop_field k fs) ≡ none
lookup-drop_self k end = refl
lookup-drop_self k (field j w fs) = ground (arith, lookup-drop_self k fs)

lookup-drop_other :
    (k j : String) (fs : Fields) → j ≢ k → lookup_field j (drop_field k fs) ≡ lookup_field j fs
lookup-drop_other k j end n = refl
lookup-drop_other k j (field i w fs) n =
    ground (arith, lookup-drop_other k j fs n, eq_iff i k, eq_iff i j)

lookup-set_self : (k : String) (v : Json) (fs : Fields) → lookup_field k (set_field k v fs) ≡ some v
lookup-set_self k v end = ground (arith, eq_refl k)
lookup-set_self k v (field j w fs) =
    ground (arith, lookup-set_self k v fs, lookup-drop_self k fs, eq_refl k)

lookup-set_other :
    (k j : String) (v : Json) (fs : Fields)
    → j ≢ k
    → lookup_field j (set_field k v fs) ≡ lookup_field j fs
lookup-set_other k j v end n = ground (arith, eq_iff k j)
lookup-set_other k j v (field i w fs) n = ground (
  arith,
  lookup-set_other k j v fs n,
  lookup-drop_other k j fs n,
  eq_iff k j,
  eq_iff i k,
  eq_iff i j,
)

-- The fields of an object value; a value of another form has none.
abbrev pub fields : Result Json → Fields
fields (ok (obj fs)) = fs
fields _ = end

-- What `JSON.stringify` is given for a blueprint with the properties `fs` and the steps `vs`.
abbrev pub with_node : State → Fields → List Json → Json
with_node s fs vs =
    let node = new_node s.new_step_name s.new_step_role (length vs + 1) s.new_step_sla in
    obj (set_field "steps" (arr (items (vs ++ node ∷ []))) fs)

add_node-with_node :
    (host : Host) (s : State) (fs : Fields) (vs : List Json)
    → host.parse_json s.blueprint_json ≡ some (obj fs)
    → lookup_field "steps" fs ≡ some (arr (items vs))
    → add_node host s.new_step_name s.new_step_role s.new_step_sla s.blueprint_json
      ≡ ok (with_node s fs vs)
unfolding add_node
add_node-with_node host s fs vs p e = ground (arith, elements-items vs)

written-with_node :
    (host : Host) (s : State) (fs : Fields) (vs : List Json)
    → host.parse_json s.blueprint_json ≡ some (obj fs)
    → lookup_field "steps" fs ≡ some (arr (items vs))
    → s.new_step_name ≢ ""
    → s.new_step_role ≢ ""
    → ((handle_add_step host s).0.blueprint_json ≡ host.stringify (with_node s fs vs))
      × ((handle_add_step host s).0.new_step_name ≡ "")
unfolding handle_add_step
written-with_node host s fs vs p e n r = ground (
  arith,
  eq_iff s.new_step_name "",
  eq_iff s.new_step_role "",
  add_node-with_node host s fs vs p e,
)

-- If the editor holds an object whose steps are a list, a node with a name and a role is added
-- behind the list, with the next order and the chosen SLA; every other property stays as it was; and
-- the name input is reset. `JSON.parse` is taken to undo `JSON.stringify` on the value written.
pub handle_add_step_lem :
    (host : Host) (s : State) (fs : Fields) (vs : List Json)
    → host.parse_json s.blueprint_json ≡ some (obj fs)
    → lookup_field "steps" fs ≡ some (arr (items vs))
    → s.new_step_name ≢ ""
    → s.new_step_role ≢ ""
    → host.parse_json (host.stringify (with_node s fs vs)) ≡ some (with_node s fs vs)
    → let s' = (handle_add_step host s).0 in
      let node = new_node s.new_step_name s.new_step_role (length vs + 1) s.new_step_sla in
      let after = fields (parse host s'.blueprint_json) in
      (lookup_field "steps" after ≡ some (arr (items (vs ++ node ∷ []))))
      × ((k : String) → k ≢ "steps" → lookup_field k after ≡ lookup_field k fs)
      × (s'.new_step_name ≡ "")
handle_add_step_lem host s fs vs p e n r inverse =
    let (written, reset) = written-with_node host s fs vs p e n r in
    (
      rw written (rw (inverse, parse) (lookup-set_self "steps" _ fs)),
      (λ k m. rw written (rw (inverse, parse) (lookup-set_other "steps" k _ fs m))),
      reset,
    )

-- A link as the loop over the indices makes it, from a step and the one behind it.
abbrev pub link : PayloadStep → Option PayloadStep → PayloadTransition
link current next = record {
  from_step_order = current.step_order;
  to_step_order = elim next [ none ↦ some null | some n ↦ n.step_order ];
  outcome = "APPROVED";
}

-- The generated transitions are one for each step: the one at index `i` leads from the order of the
-- step at `i` to that of the step at `i + 1`, or to `null` behind the last, on approval.
pub linear_transitions-get_elem? :
    (steps : List PayloadStep) (i : ℕ)
    → get_elem? (linear_transitions steps) i
      ≡ Option.map (λ current. link current (get_elem? steps (suc i))) (get_elem? steps i)
unfolding linear_transitions
linear_transitions-get_elem? [] i = refl
linear_transitions-get_elem? (s ∷ []) zero = refl
linear_transitions-get_elem? (s ∷ t ∷ steps) zero = refl
linear_transitions-get_elem? (s ∷ steps) (suc i) = linear_transitions-get_elem? steps i
