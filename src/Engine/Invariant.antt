-- ===== src/Engine/Invariant.antt =====
-- What holds of every request, whoever starts it and whoever decides on it in which way.
use workflow_automation_plat.Common.{
  ℕ, ◌≡◌, ◌≢◌, ◌⊎◌, refl, sym, ap, subst, ◌∙◌, String, Bool, true, false, Option, none, some, [],
  ◌∷◌, ◌++◌, str_eq, if◌then◌else◌, inl, inr, Bool-cases, Option-cases, find,
}
use mathlib.Core.Bool.{false≢true}
use mathlib.Core.Option.{some-injective}
use workflow_automation_plat.Js.{Fields}
use workflow_automation_plat.Lifecycle.{
  created, in_progress, approved, rejected, completed, is_valid_transition,
}
use workflow_automation_plat.Engine.Conditions.{Python}
use workflow_automation_plat.Engine.Process.{
  Catalog, Workflow, WorkflowStep, User, StateHistory, Instance, Outcome, EngineError, done, raised,
  start_workflow, start_found, start_step, is_first_of, pending, change_status, new_instance,
}
use workflow_automation_plat.Engine.Step.{
  is_step_status, process_step, refusal, resolve_next, eval_context,
}
use workflow_automation_plat.Engine.Progress.{
  IsTrail, IsClosed, HasOneOpen, IsActive, IsOver, append-IsTrail, append-HasOneOpen,
  close_at-IsClosed, finalized, advanced, closed, decided, process_step_lem,
}

abbrev pub IsConsistent : Instance → Type 0
IsConsistent r = IsTrail created r.history r.status × (IsActive r ⊎ IsOver r)

finalized-IsConsistent :
    (now : ℕ) (outcome by : String) (r : Instance)
    → IsTrail created r.history r.status
    → r.status ≡ in_progress
    → IsClosed r.steps
    → IsConsistent (finalized now outcome by r)
unfolding is_valid_transition
finalized-IsConsistent now outcome by r t e c =
    let decision = if str_eq outcome "APPROVED" then approved else rejected in
    let first : is_valid_transition r.status decision ≡ true =
      elim (Bool-cases (str_eq outcome "APPROVED")) [
        | inl a ↦ rw (a, e) refl
        | inr a ↦ rw (a, e) refl
      ] in
    let second : is_valid_transition decision completed ≡ true =
      elim (Bool-cases (str_eq outcome "APPROVED")) [ inl a ↦ rw a refl | inr a ↦ rw a refl ] in
    let one : StateHistory = record {
      from_status = r.status;
      to_status = decision;
      changed_by = by;
    } in
    let two : StateHistory = record {
      from_status = decision;
      to_status = completed;
      changed_by = by;
    } in
    (
      append-IsTrail created decision (r.history ++ one ∷ []) two
          (append-IsTrail created r.status r.history one t refl first) refl second,
      inr (refl, refl, c),
    )

advanced-IsConsistent :
    (now : ℕ) (outcome by : String) (o : Option WorkflowStep) (r : Instance)
    → IsTrail created r.history r.status
    → r.status ≡ in_progress
    → IsClosed r.steps
    → IsConsistent (advanced now outcome by o r)
advanced-IsConsistent now outcome by none r t e c = finalized-IsConsistent now outcome by r t e c
advanced-IsConsistent now outcome by (some next) r t e c =
    (t, inl (e, (next.id, refl, append-HasOneOpen (pending now next) r.steps c refl)))

decided-IsConsistent :
    (py : Python) (catalog : Catalog) (now : ℕ) (user : User) (outcome : String) (context : Fields)
    (r : Instance) (step : WorkflowStep)
    → IsTrail created r.history r.status
    → r.status ≡ in_progress
    → HasOneOpen step.id r.steps
    → IsConsistent (decided py catalog now user outcome context r step)
decided-IsConsistent py catalog now user outcome context r step t e h =
    advanced-IsConsistent now outcome user.id
      (resolve_next py catalog r.current_step_id outcome (eval_context r context))
      (closed now outcome user.id context step r) t e
      (close_at-IsClosed step.id now user.id outcome context r.steps h)

-- The request that a call leaves.
abbrev result : Instance → Outcome → Instance
result d (done r) = r
result d (raised e) = d

abbrev is_done : Outcome → Bool
is_done (done r) = true
is_done (raised e) = false

pub done_eq : {a b : Instance} → Outcome.done a ≡ done b → a ≡ b
done_eq {a} e = ap (result a) e

pub raised≢done : {e : EngineError} {r : Instance} → raised e ≢ done r
raised≢done p = false≢true (ap is_done p)

active-IsConsistent :
    (py : Python) (catalog : Catalog) (now : ℕ) (user : User) (outcome : String) (context : Fields)
    (r : Instance) {r' : Instance}
    → IsTrail created r.history r.status
    → IsActive r
    → process_step py catalog now user outcome context (some r) ≡ done r'
    → IsConsistent r'
active-IsConsistent py catalog now user outcome context r t (s, (id, i, h)) e =
    let (x, p, q, denied, granted, failed) =
      (process_step_lem py catalog now user outcome context r).0 (s, (id, i, h)) in
    let same = some-injective _ _ (sym i ∙ q) in
    elim (Option-cases (refusal py user x.step)) [
      | inl k ↦ elim (Bool-cases (is_step_status outcome)) [
        | inl b ↦
            subst IsConsistent (done_eq (sym (granted k b) ∙ e))
              (decided-IsConsistent py catalog now user outcome context r x.step t s (rw same at h))
        | inr b ↦ absurd (raised≢done (sym (failed k b) ∙ e))
      ]
      | inr (f, k) ↦ absurd (raised≢done (sym (denied f k) ∙ e))
    ]

pub process_step-IsConsistent :
    (py : Python) (catalog : Catalog) (now : ℕ) (user : User) (outcome : String) (context : Fields)
    (r : Instance) {r' : Instance}
    → IsConsistent r
    → process_step py catalog now user outcome context (some r) ≡ done r'
    → IsConsistent r'
process_step-IsConsistent py catalog now user outcome context r (t, inl a) e =
    active-IsConsistent py catalog now user outcome context r t a e
process_step-IsConsistent py catalog now user outcome context r (t, inr o) e =
    absurd (raised≢done (sym ((process_step_lem py catalog now user outcome context r).1 o) ∙ e))

pub start_step-IsConsistent :
    (now : ℕ) (notified : Bool) (by : String) (r : Instance) (o : Option WorkflowStep)
    {r' : Instance}
    → IsTrail created r.history r.status
    → r.status ≡ in_progress
    → IsClosed r.steps
    → start_step now notified by r o ≡ done r'
    → IsConsistent r'
unfolding start_step
start_step-IsConsistent now notified by r none t s c e = absurd (raised≢done e)
start_step-IsConsistent now true by r (some w) t s c e =
    subst IsConsistent (done_eq e)
      (t, inl (s, (w.id, refl, append-HasOneOpen (pending now w) r.steps c refl)))
start_step-IsConsistent now false by r (some w) t s c e = absurd (raised≢done e)

pub start_found-IsConsistent :
    (catalog : Catalog) (now : ℕ) (notified : Bool) (workflow_id : ℕ) (by : String)
    (context : Fields) (o : Option Workflow) {r' : Instance}
    → start_found catalog now notified workflow_id by context o ≡ done r'
    → IsConsistent r'
unfolding start_found change_status new_instance is_valid_transition
start_found-IsConsistent catalog now notified workflow_id by context none e = absurd (raised≢done e)
start_found-IsConsistent catalog now notified workflow_id by context (some w) e =
    let begun : Instance = record (new_instance workflow_id by context) {
      status = in_progress;
      history = record { from_status = created; to_status = in_progress; changed_by = by } ∷ [];
    } in
    start_step-IsConsistent now notified by begun (find (is_first_of workflow_id) catalog.steps)
      (refl, refl, refl) refl tt e

-- Somebody starts a request, and then people decide on it with any outcomes at any times.
pub data Reaches (py : Python) (catalog : Catalog) : Instance → Type 1 where
  started :
      (now : ℕ) (notified : Bool) (workflow_id : ℕ) (by : String) (context : Fields) {r : Instance}
      → start_workflow catalog now notified workflow_id by context ≡ done r
      → Reaches py catalog r
  processed :
      (now : ℕ) (user : User) (outcome : String) (context : Fields) {r r' : Instance}
      → Reaches py catalog r
      → process_step py catalog now user outcome context (some r) ≡ done r'
      → Reaches py catalog r'

-- Every request that is started and decided on, in whichever way, is either in progress, with
-- exactly one open step, its current one, or completed, with none; and its history leads from
-- CREATED to its status by valid transitions only.
pub Reaches-IsConsistent :
    (py : Python) (catalog : Catalog) {r : Instance} → Reaches py catalog r → IsConsistent r
unfolding start_workflow
Reaches-IsConsistent py catalog (started now notified workflow_id by context e) =
    start_found-IsConsistent catalog now notified workflow_id by context _ e
Reaches-IsConsistent py catalog (processed now user outcome context {r} h e) =
    process_step-IsConsistent py catalog now user outcome context r
      (Reaches-IsConsistent py catalog h) e
