-- ===== src/Engine/Conditions.antt =====
-- `ConditionEvaluator`. Python's floats, comparisons and text functions are parameters.
use workflow_automation_plat.Common.{
  String, Bool, true, false, not, Option, none, some, List, [], ◌∷◌, str_eq, ◌==◌, if◌then◌else◌,
  ◌&&◌,
}
use workflow_automation_plat.Js.{
  Json, null, bool, num, str, arr, obj, nil, end, Fields, lookup_field,
}

-- What Python computes: `none` is a TypeError or a ValueError.
pub record Python : Type 1 where
  pub Float : Type 0
  pub to_float : Json → Option Float
  pub float_gt : Float → Float → Bool
  pub float_ge : Float → Float → Bool
  -- `a == b` and `a in b`.
  pub equal : Json → Json → Bool
  pub is_in : Json → Json → Option Bool
  -- `s.split(".")`, `s.upper()` and `s.lower()`.
  pub split_dots : String → List String
  pub upper : String → String
  pub lower : String → String

-- `d.get(k)` on a dict, where `None` and a missing key are the same.
abbrev pub dict_get : String → Fields → Json
dict_get k fs = elim (lookup_field k fs) [ none ↦ null | some v ↦ v ]

-- `bool(v)`: empty texts, lists and dicts are false.
abbrev pub is_true : Json → Bool
is_true null = false
is_true (bool b) = b
is_true (num n) = not (n == 0)
is_true (str s) = not (str_eq s "")
is_true (arr nil) = false
is_true (arr _) = true
is_true (obj end) = false
is_true (obj _) = true

abbrev pub is_none : Json → Bool
is_none null = true
is_none _ = false

-- The walk along the parts of `field`, which ends at what is no dict.
abbrev pub walk : List String → Json → Json
walk [] v = v
walk (part ∷ parts) (obj fs) = walk parts (dict_get part fs)
walk (part ∷ parts) _ = null

module _ (py : Python) where
  -- A comparison of floats; one that raises counts as false.
  abbrev compare : (py.Float → py.Float → Bool) → Json → Json → Bool
  compare test a b = elim (py.to_float a) [
    | none ↦ false
    | some x ↦ elim (py.to_float b) [ none ↦ false | some y ↦ test x y ]
  ]

  abbrev or_false : Option Bool → Bool
  or_false none = false
  or_false (some b) = b

  -- `_apply_operator`.
  unfoldable pub apply_operator : Json → String → Json → Bool
  apply_operator actual operator target =
      if str_eq operator "=="
      then py.equal actual target
      else if str_eq operator "!="
      then not (py.equal actual target)
      else if str_eq operator ">"
      then compare py.float_gt actual target
      else if str_eq operator "<"
      then compare (λ x y. py.float_gt y x) actual target
      else if str_eq operator ">="
      then compare py.float_ge actual target
      else if str_eq operator "<="
      then compare (λ x y. py.float_ge y x) actual target
      else if str_eq operator "in"
      then or_false (py.is_in actual target)
      else if str_eq operator "contains"
      then or_false (py.is_in target actual)
      else false

  -- `config.get("operator", "==")`: what is no text is none of the operators.
  abbrev operator_of : Option Json → String
  operator_of none = "=="
  operator_of (some (str s)) = s
  operator_of (some _) = ""

  -- The test of the value at `field`; a field that is no text has no `split`, which counts as false.
  abbrev at_field : Json → Fields → Fields → Bool
  at_field (str f) config context =
      let actual = walk (py.split_dots f) (obj context) in
      let target = dict_get "value" config in
      if is_none actual && not (is_none target)
      then false
      else apply_operator actual (operator_of (lookup_field "operator" config)) target
  at_field _ config context = false

  -- `evaluate`.
  unfoldable pub evaluate : Fields → Fields → Bool
  unfolding apply_operator
  evaluate end context = true
  evaluate config context =
      if is_true (dict_get "field" config)
      then at_field (dict_get "field" config) config context
      else true
