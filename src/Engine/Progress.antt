-- ===== src/Engine/Progress.antt =====
-- What `process_step` does to a request that has exactly one open step, the current one.
use workflow_automation_plat.Common.{
  ℕ, ◌≡◌, ◌⊎◌, refl, sym, ◌∙◌, arith, String, true, false, Option, none, some, List, [], ◌∷◌, ◌++◌,
  str_eq, if◌then◌else◌, inl, inr, find, Bool-cases,
}
use mathlib.Core.Option.{some-injective}
use workflow_automation_plat.Js.{Fields}
use workflow_automation_plat.Lifecycle.{
  RequestStatus, in_progress, approved, rejected, completed, is_valid_transition,
}
use workflow_automation_plat.Engine.Conditions.{Python}
use workflow_automation_plat.Engine.Process.{
  status_refused, Catalog, WorkflowStep, User, RequestStep, StateHistory, Instance, done, raised,
  EngineError, no_pending_step, change_status, enter, is_open_at, current_exec, log_action,
}
use workflow_automation_plat.Engine.Step.{
  is_step_status, process_step, process_current, if_permitted, refusal, complete_step, proceed,
  finalize, close_at, close, resolve_next, eval_context,
}

-- The history leads from one status to the other, each row by a valid transition from the status
-- that the row before it led to.
abbrev pub IsTrail : RequestStatus → List StateHistory → RequestStatus → Type 0
IsTrail a [] b = a ≡ b
IsTrail a (h ∷ hs) b =
    (h.from_status ≡ a) × (is_valid_transition a h.to_status ≡ true) × IsTrail h.to_status hs b

abbrev pub IsClosed : List RequestStep → Type 0
IsClosed [] = Unit
IsClosed (x ∷ xs) = ((t : ℕ) × (x.completed_at ≡ some t)) × IsClosed xs

-- Exactly one row is not completed, and it is of the step.
abbrev pub HasOneOpen : ℕ → List RequestStep → Type 0
HasOneOpen id [] = ⊥
HasOneOpen id (x ∷ xs) =
    ((x.completed_at ≡ none) × (x.step.id ≡ id) × IsClosed xs)
    ⊎ (((t : ℕ) × (x.completed_at ≡ some t)) × HasOneOpen id xs)

abbrev pub IsActive : Instance → Type 0
IsActive r =
    (r.status ≡ in_progress) × ((id : ℕ) × (r.current_step_id ≡ some id) × HasOneOpen id r.steps)

abbrev pub IsOver : Instance → Type 0
IsOver r = (r.status ≡ completed) × (r.current_step_id ≡ none) × IsClosed r.steps

pub append-IsTrail :
    (a b : RequestStatus) (hs : List StateHistory) (h : StateHistory)
    → IsTrail a hs b
    → h.from_status ≡ b
    → is_valid_transition b h.to_status ≡ true
    → IsTrail a (hs ++ h ∷ []) h.to_status
append-IsTrail a b [] h e f v = (f ∙ sym e, rw e v, refl)
append-IsTrail a b (k ∷ hs) h (p, q, t) f v = (p, q, append-IsTrail k.to_status b hs h t f v)

pub append-HasOneOpen :
    (x : RequestStep) (xs : List RequestStep)
    → IsClosed xs
    → x.completed_at ≡ none
    → HasOneOpen x.step.id (xs ++ x ∷ [])
append-HasOneOpen x [] c e = inl (e, refl, tt)
append-HasOneOpen x (y ∷ xs) (p, c) e = inr (p, append-HasOneOpen x xs c e)

pub is_open_at-open :
    (id : ℕ) (x : RequestStep) → x.completed_at ≡ none → x.step.id ≡ id → is_open_at id x ≡ true
is_open_at-open id x e f = ground arith

pub is_open_at-closed :
    (id t : ℕ) (x : RequestStep) → x.completed_at ≡ some t → is_open_at id x ≡ false
is_open_at-closed id t x e = ground arith

-- The query finds the open row, of the current step.
find_open :
    (id : ℕ) (xs : List RequestStep)
    → HasOneOpen id xs
    → (x : RequestStep) × (find (is_open_at id) xs ≡ some x) × (x.step.id ≡ id)
find_open id [] h = elim h [ ]
find_open id (x ∷ xs) (inl (e, f, c)) = (x, rw (is_open_at-open id x e f) refl, f)
find_open id (x ∷ xs) (inr ((t, e), h)) =
    let (y, p, q) = find_open id xs h in (y, rw (is_open_at-closed id t x e) p, q)

pub close_at-IsClosed :
    (id now : ℕ) (by outcome : String) (context : Fields) (xs : List RequestStep)
    → HasOneOpen id xs
    → IsClosed (close_at id (close by outcome context now) xs)
unfolding close_at
close_at-IsClosed id now by outcome context [] h = elim h [ ]
close_at-IsClosed id now by outcome context (x ∷ xs) (inl (e, f, c)) =
    rw (is_open_at-open id x e f) ((now, refl), c)
close_at-IsClosed id now by outcome context (x ∷ xs) (inr ((t, e), h)) =
    rw (is_open_at-closed id t x e) ((t, e), close_at-IsClosed id now by outcome context xs h)

-- The request that `finalize` leaves.
abbrev pub finalized : ℕ → String → String → Instance → Instance
finalized now outcome by r =
    let decision = if str_eq outcome "APPROVED" then approved else rejected in
    log_action "WORKFLOW_COMPLETED" by (record r {
      status = completed;
      history =
          (r.history
            ++ record { from_status = r.status; to_status = decision; changed_by = by } ∷ [])
          ++ record { from_status = decision; to_status = completed; changed_by = by } ∷ [];
      current_step_id = none;
      completed_at = some now;
    })

-- The request that goes on to the next step, if there is one.
abbrev pub advanced : ℕ → String → String → Option WorkflowStep → Instance → Instance
advanced now outcome by none r = finalized now outcome by r
advanced now outcome by (some next) r = enter now next r

abbrev pub closed : ℕ → String → String → Fields → WorkflowStep → Instance → Instance
closed now outcome by context step r = record r {
  steps = close_at step.id (close by outcome context now) r.steps;
}

-- The request after a decision at the given step.
abbrev pub decided :
    Python → Catalog → ℕ → User → String → Fields → Instance → WorkflowStep → Instance
decided py catalog now user outcome context r step = log_action "STEP_COMPLETED" user.id (
    advanced now outcome user.id
      (resolve_next py catalog r.current_step_id outcome (eval_context r context))
      (closed now outcome user.id context step r))

finalize_lem :
    (now : ℕ) (outcome by : String) (r : Instance)
    → r.status ≡ in_progress
    → finalize now outcome by r ≡ done (finalized now outcome by r)
unfolding finalize change_status is_valid_transition
finalize_lem now outcome by r e = elim (Bool-cases (str_eq outcome "APPROVED")) [
  | inl a ↦ rw (a, e) refl
  | inr a ↦ rw (a, e) refl
]

proceed_lem :
    (py : Python) (catalog : Catalog) (now : ℕ) (user : User) (outcome : String) (context : Fields)
    (o : Option WorkflowStep) (r : Instance)
    → r.status ≡ in_progress
    → proceed py catalog now user outcome context o r ≡ done (advanced now outcome user.id o r)
unfolding proceed
proceed_lem py catalog now user outcome context none r e = finalize_lem now outcome user.id r e
proceed_lem py catalog now user outcome context (some next) r e = refl

pub complete_step_lem :
    (py : Python) (catalog : Catalog) (now : ℕ) (user : User) (outcome : String) (context : Fields)
    (r : Instance) (x : RequestStep)
    → r.status ≡ in_progress
    → complete_step py catalog now user outcome context r x ≡ (
        if is_step_status outcome
        then done (decided py catalog now user outcome context r x.step)
        else raised status_refused)
unfolding complete_step
complete_step_lem py catalog now user outcome context r x e =
    rw
      (proceed_lem py catalog now user outcome context
        (resolve_next py catalog r.current_step_id outcome (eval_context r context))
        (closed now outcome user.id context x.step r) e)
      refl

current_exec_lem :
    (r : Instance) (id : ℕ)
    → r.current_step_id ≡ some id
    → HasOneOpen id r.steps
    → (x : RequestStep) × (current_exec r ≡ some x) × (x.step.id ≡ id)
unfolding current_exec
current_exec_lem r id e h = let (x, p, q) = find_open id r.steps h in (x, rw e p, q)

pub process_step_lem :
    (py : Python) (catalog : Catalog) (now : ℕ) (user : User) (outcome : String) (context : Fields)
    (r : Instance)
    → (IsActive r
        → (x : RequestStep) × (current_exec r ≡ some x)
          × (r.current_step_id ≡ some x.step.id)
          × ((e : EngineError)
              → refusal py user x.step ≡ some e
              → process_step py catalog now user outcome context (some r) ≡ raised e)
          × (refusal py user x.step ≡ none
              → is_step_status outcome ≡ true
              → process_step py catalog now user outcome context (some r)
                ≡ done (decided py catalog now user outcome context r x.step))
          × (refusal py user x.step ≡ none
              → is_step_status outcome ≡ false
              → process_step py catalog now user outcome context (some r) ≡ raised status_refused))
      × (IsOver r
          → process_step py catalog now user outcome context (some r) ≡ raised no_pending_step)
unfolding process_step process_current if_permitted current_exec
process_step_lem py catalog now user outcome context r = (
  (λ (s, (id, e, h)).
      let (x, p, q) = current_exec_lem r id e h in
      (
        x,
        p,
        rw q e,
        (λ f k. rw (p, k) refl),
        (λ k b.
            rw (p, k) (complete_step_lem py catalog now user outcome context r x s ∙ rw b refl)),
        λ k b. rw (p, k) (complete_step_lem py catalog now user outcome context r x s ∙ rw b refl),
      )),
  λ (s, e, c). rw e refl,
)

-- What a user who may decide makes of the current step.
pub process_step-granted :
    (py : Python) (catalog : Catalog) (now : ℕ) (user : User) (outcome : String) (context : Fields)
    (r : Instance) (x : RequestStep)
    → IsActive r
    → current_exec r ≡ some x
    → refusal py user x.step ≡ none
    → is_step_status outcome ≡ true
    → (process_step py catalog now user outcome context (some r)
        ≡ done (decided py catalog now user outcome context r x.step))
      × (r.current_step_id ≡ some x.step.id)
      × HasOneOpen x.step.id r.steps
process_step-granted py catalog now user outcome context r x (s, (id, i, h)) c k b =
    let (y, f, j, _, granted, _) =
      (process_step_lem py catalog now user outcome context r).0 (s, (id, i, h)) in
    let same : x ≡ y = some-injective _ _ (sym c ∙ f) in
    let own : id ≡ y.step.id = some-injective _ _ (sym i ∙ j) in
    rw same (granted (rw same at k) b, j, rw own at h)

-- The same, for whichever outcome.
pub process_step-settled :
    (py : Python) (catalog : Catalog) (now : ℕ) (user : User) (outcome : String) (context : Fields)
    (r : Instance) (x : RequestStep)
    → IsActive r
    → current_exec r ≡ some x
    → refusal py user x.step ≡ none
    → process_step py catalog now user outcome context (some r) ≡ (
        if is_step_status outcome
        then done (decided py catalog now user outcome context r x.step)
        else raised status_refused)
process_step-settled py catalog now user outcome context r x a c k =
    let (y, f, _, _, granted, failed) =
      (process_step_lem py catalog now user outcome context r).0 a in
    let same : x ≡ y = some-injective _ _ (sym c ∙ f) in
    elim (Bool-cases (is_step_status outcome)) [
      | inl b ↦ rw (same, b) (granted (rw same at k) b)
      | inr b ↦ rw (same, b) (failed (rw same at k) b)
    ]
