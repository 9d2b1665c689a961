-- ===== src/Creation/Schema.antt =====
-- app/schemas/workflow.py: what `WorkflowCreate` accepts of a posted payload. A payload that it does
-- not accept is answered with 422 before any code of the service runs.
use workflow_automation_plat.Common.{
  ℕ, String, Bool, true, false, Option, none, some, List, [], ◌∷◌, leb, ◌&&◌,
}
use workflow_automation_plat.Js.{Json, null, str, end}
use workflow_automation_plat.Constructor.Payload.{Payload, PayloadStep, PayloadTransition}
use workflow_automation_plat.Creation.{StepIn, TransitionIn, WorkflowIn}

-- What pydantic computes: the length of a text, the integer that a value stands for, and whether a
-- text is a UUID.
pub record Pydantic : Type 0 where
  pub len : String → ℕ
  pub to_int : Json → Option ℕ
  pub is_uuid : String → Bool

abbrev pub bind {ℓ κ} : {A : Type ℓ} {B : Type κ} → Option A → (A → Option B) → Option B
bind none f = none
bind (some a) f = f a

abbrev pub check {ℓ} : {A : Type ℓ} → Bool → Option A → Option A
check true o = o
check false o = none

-- Each element in turn; one that is refused refuses the list.
abbrev pub read_all {ℓ κ} : {A : Type ℓ} {B : Type κ} → (A → Option B) → List A → Option (List B)
read_all f [] = some []
read_all f (x ∷ xs) = bind (f x) (λ y. bind (read_all f xs) (λ ys. some (y ∷ ys)))

abbrev pub text_of : Option Json → String
text_of (some (str s)) = s
text_of _ = ""

module _ (py : Pydantic) where
  -- `str = Field(..., min_length=1, max_length=n)`.
  abbrev pub is_name : ℕ → Option Json → Bool
  is_name n (some (str s)) = leb 1 (py.len s) && leb (py.len s) n
  is_name n _ = false

  -- `Optional[str]`.
  abbrev pub is_optional_text : Option Json → Bool
  is_optional_text none = true
  is_optional_text (some null) = true
  is_optional_text (some (str s)) = true
  is_optional_text _ = false

  abbrev pub is_optional_uuid : Option String → Bool
  is_optional_uuid none = true
  is_optional_uuid (some s) = py.is_uuid s

  abbrev pub required_int : Option Json → Option ℕ
  required_int none = none
  required_int (some v) = py.to_int v

  -- `Optional[int] = None`.
  abbrev pub optional_int : Option Json → Option (Option ℕ)
  optional_int none = some none
  optional_int (some null) = some none
  optional_int (some v) = bind (py.to_int v) (λ n. some (some n))

  -- `int = Field(..., ge=1)`.
  abbrev pub positive : Option ℕ → Option ℕ
  positive none = none
  positive (some n) = check (leb 1 n) (some n)

  -- `WorkflowStepCreate`.
  unfoldable pub read_step : PayloadStep → Option StepIn
  read_step s = check (is_name 100 s.name) (
      check (is_optional_text (some s.description)) (
        check (is_optional_uuid s.required_role_id) (
          check (is_optional_uuid s.required_permission_id) (
            bind (positive (required_int s.step_order)) (λ order.
              bind (positive (py.to_int s.sla_hours)) (λ hours. some (record {
                step_order = order;
                sla_hours = hours;
                required_role_id = s.required_role_id;
                required_permission_id = s.required_permission_id;
              })))))))

  -- `StepTransitionCreate`; the pages send no conditions.
  unfoldable pub read_transition : PayloadTransition → Option TransitionIn
  read_transition t = bind (required_int t.from_step_order) (λ from.
      bind (optional_int t.to_step_order) (λ to. some (record {
        from_step_order = from;
        to_step_order = to;
        outcome = t.outcome;
        condition_config = end;
      })))

  -- `WorkflowCreate`.
  unfoldable pub read_workflow : Payload → Option WorkflowIn
  unfolding read_step read_transition
  read_workflow p = check (is_name 255 p.name) (
      check (is_optional_text p.description) (
        bind (read_all read_step p.steps) (λ steps.
          bind (read_all read_transition p.transitions) (λ transitions.
            some (record { name = text_of p.name; steps = steps; transitions = transitions })))))
