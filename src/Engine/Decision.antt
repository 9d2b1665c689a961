-- ===== src/Engine/Decision.antt =====
-- Who can decide, and what becomes of the decisions of frontend/src/app/tasks/page.tsx.
use workflow_automation_plat.Common.{
  Bool-cases, inl, inr, if◌then◌else◌, ℕ, ◌≡◌, ◌≢◌, ◌⊎◌, refl, sym, ap, ◌∙◌, arith, String, true,
  false, Option, none, some, str_eq,
}
use mathlib.Core.Bool.{false≢true}
use workflow_automation_plat.Js.{Fields, field, str, end}
use workflow_automation_plat.Tasks.{Action, approve, reject, action_text}
use workflow_automation_plat.Engine.Conditions.{Python}
use workflow_automation_plat.Engine.Process.{
  and_then, invalid_transition, status_refused, Catalog, WorkflowStep, User, RequestStep, Instance,
  Outcome, done, raised, EngineError, current_exec,
}
use workflow_automation_plat.Engine.Step.{
  is_step_status, log_flushed, complete_step, respond, refused, process_step, process_current,
  if_permitted, refusal, is_admin, meets, role_ids, permission_ids, make_decision, text_or_none,
}
use workflow_automation_plat.Engine.Progress.{IsActive, decided, process_step-settled}
use workflow_automation_plat.Engine.Invariant.{raised≢done}

-- The user is an administrator, or has the role and the permission that the step requires.
abbrev pub IsAuthorized : Python → User → WorkflowStep → Type 0
IsAuthorized py user step =
    (is_admin py user ≡ true)
    ⊎ ((meets step.required_role_id (role_ids user.roles) ≡ true)
        × (meets step.required_permission_id (permission_ids user.roles) ≡ true))

refusal-IsAuthorized :
    (py : Python) (user : User) (step : WorkflowStep)
    → refusal py user step ≡ none
    → IsAuthorized py user step
unfolding refusal
refusal-IsAuthorized py user step e = ground arith

if_permitted-none :
    (o : Option EngineError) (rest : Outcome) {r : Instance}
    → if_permitted o rest ≡ done r
    → o ≡ none
unfolding if_permitted
if_permitted-none none rest e = refl
if_permitted-none (some f) rest e =
    absurd (false≢true (ap (λ o. elim o [ done s ↦ true | raised g ↦ false ]) e))

process_current-IsAuthorized :
    (py : Python) (catalog : Catalog) (now : ℕ) (user : User) (outcome : String) (context : Fields)
    (r : Instance) {r' : Instance} (o : Option RequestStep)
    → process_current py catalog now user outcome context r o ≡ done r'
    → (x : RequestStep) × (o ≡ some x) × IsAuthorized py user x.step
unfolding process_current
process_current-IsAuthorized py catalog now user outcome context r none e =
    absurd (false≢true (ap (λ o. elim o [ done s ↦ true | raised g ↦ false ]) e))
process_current-IsAuthorized py catalog now user outcome context r (some x) e =
    (x, refl, refusal-IsAuthorized py user x.step (if_permitted-none _ _ e))

-- A decision is only ever carried out for an administrator, or for a user with the role and the
-- permission that the current step requires, whatever request it is about.
pub process_step-IsAuthorized :
    (py : Python) (catalog : Catalog) (now : ℕ) (user : User) (outcome : String) (context : Fields)
    (r : Instance) {r' : Instance}
    → process_step py catalog now user outcome context (some r) ≡ done r'
    → (x : RequestStep) × (current_exec r ≡ some x) × IsAuthorized py user x.step
unfolding process_step
process_step-IsAuthorized py catalog now user outcome context r e =
    process_current-IsAuthorized py catalog now user outcome context r (current_exec r) e

-- Nothing is carried out with an outcome that is no status of steps.
log_flushed-done :
    (outcome action actor : String) (o : Outcome) {r' : Instance}
    → and_then o (log_flushed outcome action actor) ≡ done r'
    → is_step_status outcome ≡ true
log_flushed-done outcome action actor (raised f) e = absurd (raised≢done e)
log_flushed-done outcome action actor (done r) e = elim (Bool-cases (is_step_status outcome)) [
  | inl b ↦ b
  | inr b ↦ absurd (raised≢done (rw b at e))
]

if_permitted-done :
    (o : Option EngineError) (rest : Outcome) {r : Instance}
    → if_permitted o rest ≡ done r
    → rest ≡ done r
unfolding if_permitted
if_permitted-done none rest e = e
if_permitted-done (some f) rest e = absurd (raised≢done e)

process_current-is_step_status :
    (py : Python) (catalog : Catalog) (now : ℕ) (user : User) (outcome : String) (context : Fields)
    (r : Instance) (o : Option RequestStep) {r' : Instance}
    → process_current py catalog now user outcome context r o ≡ done r'
    → is_step_status outcome ≡ true
unfolding process_current complete_step
process_current-is_step_status py catalog now user outcome context r none e = absurd (raised≢done e)
process_current-is_step_status py catalog now user outcome context r (some x) e =
    log_flushed-done outcome "STEP_COMPLETED" user.id _
      (if_permitted-done (refusal py user x.step) _ e)

process_step-is_step_status :
    (py : Python) (catalog : Catalog) (now : ℕ) (user : User) (outcome : String) (context : Fields)
    (o : Option Instance) {r' : Instance}
    → process_step py catalog now user outcome context o ≡ done r'
    → is_step_status outcome ≡ true
unfolding process_step
process_step-is_step_status py catalog now user outcome context none e = absurd (raised≢done e)
process_step-is_step_status py catalog now user outcome context (some r) e =
    process_current-is_step_status py catalog now user outcome context r (current_exec r) e

-- The outcomes of the tasks page are no status of steps.
upper_action :
    (py : Python) (a : Action)
    → py.upper "approve" ≡ "APPROVE"
    → py.upper "reject" ≡ "REJECT"
    → is_step_status (py.upper (action_text a)) ≡ false
upper_action py approve p q = rw p refl
upper_action py reject p q = rw q refl

action_text-full : (a : Action) → str_eq (action_text a) "" ≡ false
action_text-full approve = refl
action_text-full reject = refl

respond_raised : (e : EngineError) → (n : ℕ) × (respond (raised e) ≡ refused n)
respond_raised invalid_transition = (500, refl)
respond_raised status_refused = (500, refl)
respond_raised e = (400, refl)

respond_unsettled :
    (o : Outcome) → ((r : Instance) → o ≢ done r) → (n : ℕ) × (respond o ≡ refused n)
respond_unsettled (done r) h = absurd (h r refl)
respond_unsettled (raised e) h = respond_raised e

-- Whatever the user decides on the tasks page, approval included, and on whichever request: the
-- decision endpoint answers with an error, and with 500 where the request is active and the user
-- may decide on its current step. The upper-case texts are as Python has them.
pub make_decision-refused :
    (py : Python) (catalog : Catalog) (now : ℕ) (user : User) (a : Action) (comment : Option String)
    (o : Option Instance)
    → py.upper "approve" ≡ "APPROVE"
    → py.upper "reject" ≡ "REJECT"
    → let answer = make_decision py catalog now user (some (action_text a)) comment o in
      ((n : ℕ) × (answer ≡ refused n))
      × ((r : Instance) (x : RequestStep)
          → o ≡ some r
          → IsActive r
          → current_exec r ≡ some x
          → refusal py user x.step ≡ none
          → answer ≡ refused 500)
unfolding make_decision
make_decision-refused py catalog now user a comment o p q =
    let outcome = py.upper (action_text a) in
    let context =
      field "comment" (text_or_none comment) (field "action" (str (action_text a)) end) in
    let unknown = upper_action py a p q in
    let never = λ (r : Instance) (e : process_step py catalog now user outcome context o ≡ done r).
      false≢true
        (sym unknown ∙ process_step-is_step_status py catalog now user outcome context o e) in
    let (n, answered) =
      respond_unsettled (process_step py catalog now user outcome context o) never in
    (
      (n, rw (action_text-full a) answered),
      λ r x f active c k.
          let failed : process_step py catalog now user outcome context o ≡ raised status_refused =
            ap (process_step py catalog now user outcome context) f
            ∙ (process_step-settled py catalog now user outcome context r x active c k
                ∙ ap
                    (λ b.
                      if b
                      then done (decided py catalog now user outcome context r x.step)
                      else raised status_refused)
                    unknown) in
          rw (action_text-full a) (ap respond failed),
    )
