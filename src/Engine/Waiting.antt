-- ===== src/Engine/Waiting.antt =====
-- An open row waits for its decision: its status is still the one that it was entered with.
use workflow_automation_plat.Common.{
  ℕ, ◌≡◌, refl, sym, subst, ◌∙◌, String, Bool, true, false, Option, none, some, List, [], ◌∷◌, inl,
  inr, All, All-append, Option-cases, Bool-cases, find,
}
use mathlib.Core.Option.{none-ne-some}
use workflow_automation_plat.Js.{Fields}
use workflow_automation_plat.Lifecycle.{created, in_progress, is_valid_transition}
use workflow_automation_plat.Engine.Conditions.{Python}
use workflow_automation_plat.Engine.Process.{
  Catalog, Workflow, WorkflowStep, User, RequestStep, Instance, done, pending, start_workflow,
  start_found, start_step, change_status, new_instance, is_first_of, is_open_at,
}
use workflow_automation_plat.Engine.Step.{
  is_step_status, process_step, refusal, close_at, close, resolve_next, eval_context,
}
use workflow_automation_plat.Engine.Progress.{advanced, closed, decided, process_step_lem}
use workflow_automation_plat.Engine.Invariant.{done_eq, raised≢done, IsConsistent}

abbrev pub IsWaiting : RequestStep → Type 0
IsWaiting x = x.completed_at ≡ none → x.status ≡ "PENDING"

abbrev pub AllWait : Instance → Type 0
AllWait r = All IsWaiting r.steps

close_at-AllWait :
    (id now : ℕ) (by outcome : String) (context : Fields) (xs : List RequestStep)
    → All IsWaiting xs
    → All IsWaiting (close_at id (close by outcome context now) xs)
unfolding close_at
close_at-AllWait id now by outcome context [] h = tt
close_at-AllWait id now by outcome context (x ∷ xs) (p, h) = elim (Bool-cases (is_open_at id x)) [
  | inl e ↦ rw e ((λ f. absurd (none-ne-some _ (sym f))), h)
  | inr e ↦ rw e (p, close_at-AllWait id now by outcome context xs h)
]

decided-AllWait :
    (py : Python) (catalog : Catalog) (now : ℕ) (user : User) (outcome : String) (context : Fields)
    (r : Instance) (step : WorkflowStep)
    → AllWait r
    → AllWait (decided py catalog now user outcome context r step)
decided-AllWait py catalog now user outcome context r step h =
    let rest = close_at-AllWait step.id now user.id outcome context r.steps h in
    go (resolve_next py catalog r.current_step_id outcome (eval_context r context)) rest
  where
    go :
        (o : Option WorkflowStep)
        → All IsWaiting (close_at step.id (close user.id outcome context now) r.steps)
        → AllWait (advanced now outcome user.id o (closed now outcome user.id context step r))
    go none k = k
    go (some next) k = All-append IsWaiting _ (pending now next ∷ []) k ((λ e. refl), tt)

pub process_step-AllWait :
    (py : Python) (catalog : Catalog) (now : ℕ) (user : User) (outcome : String) (context : Fields)
    (r : Instance) {r' : Instance}
    → IsConsistent r
    → AllWait r
    → process_step py catalog now user outcome context (some r) ≡ done r'
    → AllWait r'
process_step-AllWait py catalog now user outcome context r (t, inl a) h e =
    let (x, p, q, denied, granted, failed) =
      (process_step_lem py catalog now user outcome context r).0 a in
    elim (Option-cases (refusal py user x.step)) [
      | inl k ↦ elim (Bool-cases (is_step_status outcome)) [
        | inl b ↦
            subst AllWait (done_eq (sym (granted k b) ∙ e))
              (decided-AllWait py catalog now user outcome context r x.step h)
        | inr b ↦ absurd (raised≢done (sym (failed k b) ∙ e))
      ]
      | inr (f, k) ↦ absurd (raised≢done (sym (denied f k) ∙ e))
    ]
process_step-AllWait py catalog now user outcome context r (t, inr o) h e =
    absurd (raised≢done (sym ((process_step_lem py catalog now user outcome context r).1 o) ∙ e))

start_step-AllWait :
    (now : ℕ) (notified : Bool) (by : String) (r : Instance) (o : Option WorkflowStep)
    {r' : Instance}
    → AllWait r
    → start_step now notified by r o ≡ done r'
    → AllWait r'
unfolding start_step
start_step-AllWait now notified by r none h e = absurd (raised≢done e)
start_step-AllWait now true by r (some w) h e =
    subst AllWait (done_eq e)
      (All-append IsWaiting r.steps (pending now w ∷ []) h ((λ p. refl), tt))
start_step-AllWait now false by r (some w) h e = absurd (raised≢done e)

start_found-AllWait :
    (catalog : Catalog) (now : ℕ) (notified : Bool) (workflow_id : ℕ) (by : String)
    (context : Fields) (o : Option Workflow) {r : Instance}
    → start_found catalog now notified workflow_id by context o ≡ done r
    → AllWait r
unfolding start_found change_status new_instance is_valid_transition
start_found-AllWait catalog now notified workflow_id by context none e = absurd (raised≢done e)
start_found-AllWait catalog now notified workflow_id by context (some w) e =
    start_step-AllWait now notified by
      (record (new_instance workflow_id by context) {
        status = in_progress;
        history = record { from_status = created; to_status = in_progress; changed_by = by } ∷ [];
      })
      (find (is_first_of workflow_id) catalog.steps) tt e

pub start_workflow-AllWait :
    (catalog : Catalog) (now : ℕ) (notified : Bool) (workflow_id : ℕ) (by : String)
    (context : Fields) {r : Instance}
    → start_workflow catalog now notified workflow_id by context ≡ done r
    → AllWait r
unfolding start_workflow
start_workflow-AllWait catalog now notified workflow_id by context e =
    start_found-AllWait catalog now notified workflow_id by context _ e
