-- ===== src/Js.antt =====
-- JavaScript values as the pages meet them: parsed JSON, property access, truthiness, and the
-- exceptions that a handler's `catch` sees. Numbers are natural numbers: the pages only copy them,
-- compare them and test them for zero.
use workflow_automation_plat.Common.{
  ℕ, String, Bool, true, false, not, Option, none, some, List, [], ◌∷◌, str_eq, ◌==◌, if◌then◌else◌,
}

mutual
  pub data Json : Type 0 where
    null : Json
    bool : Bool → Json
    num : ℕ → Json
    str : String → Json
    arr : Items → Json
    obj : Fields → Json

  pub data Items : Type 0 where
    nil : Items
    cons : Json → Items → Items

  pub data Fields : Type 0 where
    end : Fields
    field : String → Json → Fields → Fields

pub data Thrown : Type 0 where
  syntax_error type_error : Thrown
  http_error : String → Thrown

pub data Result {ℓ} (A : Type ℓ) : Type ℓ where
  ok : A → Result A
  threw : Thrown → Result A

infixl 5 ◌>>=◌
abbrev pub ◌>>=◌ {ℓ κ} : {A : Type ℓ} {B : Type κ} → Result A → (A → Result B) → Result B
ok a >>= f = f a
threw e >>= f = threw e

abbrev pub map_result {ℓ κ} : {A : Type ℓ} {B : Type κ} → (A → Result B) → List A → Result (List B)
map_result f [] = ok []
map_result f (x ∷ xs) = do y ← f x; ys ← map_result f xs; ok (y ∷ ys)

-- Functions of the host that the pages call and the repository does not define.
pub record Host : Type 0 where
  pub to_lower_case : String → String
  pub parse_json : String → Option Json
  pub stringify : Json → String
  -- `s.slice(0, 8).toUpperCase()` and `s.replace(/_/g, ' ')`.
  pub short_id : String → String
  pub spaced : String → String
  -- `Number(s)`, where it is a natural number.
  pub to_number : String → ℕ
  -- `s.length`, `{...s}` and `[...s]` of a text.
  pub text_length : String → ℕ
  pub text_fields : String → Fields
  pub text_items : String → Items

-- A later field of the same name hides an earlier one, as `JSON.parse` has it.
abbrev pub lookup_field : String → Fields → Option Json
lookup_field k end = none
lookup_field k (field j v fs) =
    let here = if str_eq j k then some v else none in
    elim (lookup_field k fs) [ some w ↦ some w | none ↦ here ]

-- `v.k`: a TypeError on `null`, and `undefined` on a value with no such property.
abbrev pub get : String → Json → Result (Option Json)
get k null = threw type_error
get k (obj fs) = ok (lookup_field k fs)
get k _ = ok none

abbrev pub drop_field : String → Fields → Fields
drop_field k end = end
drop_field k (field j w fs) =
    let rest = drop_field k fs in if str_eq j k then rest else field j w rest

abbrev pub elements : Items → List Json
elements nil = []
elements (cons v vs) = v ∷ elements vs

abbrev pub items : List Json → Items
items [] = nil
items (v ∷ vs) = cons v (items vs)

-- `{...v}` with `k` set: a value set anew keeps its place.
abbrev pub set_field : String → Json → Fields → Fields
set_field k v end = field k v end
set_field k v (field j w fs) =
    let rest = set_field k v fs in
    if str_eq j k then field k v (drop_field k fs) else field j w rest

-- `v.map`, which only an array has.
abbrev pub as_array : Option Json → Result (List Json)
as_array (some (arr vs)) = ok (elements vs)
as_array _ = threw type_error

abbrev pub truthy : Option Json → Bool
truthy none = false
truthy (some null) = false
truthy (some (bool b)) = b
truthy (some (num n)) = not (n == 0)
truthy (some (str s)) = not (str_eq s "")
truthy (some (arr vs)) = true
truthy (some (obj fs)) = true

-- `v || d`.
abbrev pub or_else : Option Json → Json → Json
or_else (some v) d = if truthy (some v) then v else d
or_else none d = d

-- `JSON.parse(text)`.
abbrev pub parse : Host → String → Result Json
parse host text = elim (host.parse_json text) [ none ↦ threw syntax_error | some v ↦ ok v ]
