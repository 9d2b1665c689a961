-- ===== src/Inventory/Tests.antt =====
-- Runs of the page, and the theorems at concrete states.
use workflow_automation_plat.Common.{
  ◌+◌, ◌≡◌, ◌≢◌, refl, arith, String, some, [], ◌∷◌, ◌++◌, length, str_eq, eq_iff, if◌then◌else◌,
}
use workflow_automation_plat.Js.{
  Json, str, arr, obj, Fields, field, end, nil, Host, items, lookup_field, parse,
}
use workflow_automation_plat.Inventory.Blueprint.{new_node}
use workflow_automation_plat.Inventory.Page.{State, initial, handle_add_step}
use workflow_automation_plat.Inventory.Editing.{with_node, fields, handle_add_step_lem}

abbrev blueprint : Fields
blueprint = field "name" (str "P") (field "steps" (arr (items [])) end)

abbrev page : State
page = record initial { blueprint_json = "old"; new_step_name = "Check"; new_step_role = "admin" }

-- Two texts, with the values that they stand for.
abbrev two_texts : Host
two_texts = record {
  to_lower_case = λ t. t;
  parse_json =
      λ t. if str_eq t "old" then some (obj blueprint) else some (with_node page blueprint []);
  stringify = λ v. "new";
  short_id = λ t. t;
  spaced = λ t. t;
  to_number = λ t. 0;
  text_length = λ t. 0;
  text_fields = λ t. end;
  text_items = λ t. nil;
}

handle_add_step_lem_example :
    let s' = (handle_add_step two_texts page).0 in
    let node = new_node "Check" "admin" (length {A = Json} [] + 1) 24 in
    let after = fields (parse two_texts s'.blueprint_json) in
    (lookup_field "steps" after ≡ some (arr (items (◌++◌ {A = Json} [] (node ∷ [])))))
    × ((k : String) → k ≢ "steps" → lookup_field k after ≡ lookup_field k blueprint)
    × (s'.new_step_name ≡ "")
handle_add_step_lem_example =
    handle_add_step_lem two_texts page blueprint [] refl refl (ground (arith, eq_iff "Check" ""))
      (ground (arith, eq_iff "admin" "")) refl
