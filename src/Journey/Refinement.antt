-- ===== src/Journey/Refinement.antt =====
-- The engine refines the promise, on every catalog whose transitions follow the rows of a workflow.
use workflow_automation_plat.Common.{
  ℕ, zero, suc, ◌≡◌, refl, sym, ap, subst, ◌∙◌, arith, String, true, false, Option, none, some,
  List, [], ◌∷◌, ◌++◌, ltb, if◌then◌else◌, All, get_elem?, find, length, ==_iff,
}
use mathlib.Core.Option.{some-injective, none-ne-some}
use workflow_automation_plat.Js.{Fields}
use workflow_automation_plat.Lifecycle.{RequestStatus, in_progress, approved, rejected, completed}
use workflow_automation_plat.Engine.Conditions.{Python}
use workflow_automation_plat.Engine.Process.{
  Catalog, WorkflowStep, RequestStep, StateHistory, Instance, done, current_exec, pending, enter,
  is_open_at, log_action,
}
use workflow_automation_plat.Engine.Step.{
  is_step_status, process_step, refusal, resolve_next, eval_context,
}
use workflow_automation_plat.Engine.Progress.{
  IsClosed, HasOneOpen, IsActive, IsOver, append-HasOneOpen, close_at-IsClosed, decided, advanced,
  closed, process_step-granted,
}
use workflow_automation_plat.Creation.Rows.{All-get_elem?}
use workflow_automation_plat.Journey.{
  Stage, at_step, ended_approved, ended_rejected, Decision, approval, rejection, advance,
  advance_all, Act, outcome_of, decisions, process_all,
}

-- The transitions lead from each row to the next on approval, and nowhere on rejection.
abbrev pub Follows : Python → Catalog → List WorkflowStep → Type 0
Follows py catalog rows =
    (context : Fields) (k : ℕ) (row : WorkflowStep)
    → get_elem? rows k ≡ some row
    → (resolve_next py catalog (some row.id) "APPROVED" context ≡ get_elem? rows (suc k))
      × (resolve_next py catalog (some row.id) "REJECTED" context ≡ none)

-- The last two rows of the history.
abbrev pub IsDecidedAs : RequestStatus → Instance → Type 0
IsDecidedAs d r =
    (hs : List StateHistory) × (by : String) × (r.history
      ≡ (hs ++ record { from_status = in_progress; to_status = d; changed_by = by } ∷ [])
        ++ record { from_status = d; to_status = completed; changed_by = by } ∷ [])

-- The request stands where the stage says.
abbrev pub Represents : List WorkflowStep → Instance → Stage → Type 0
Represents rows r (at_step k) =
    IsActive r
    × ((row : WorkflowStep) × (get_elem? rows k ≡ some row)
        × (r.current_step_id ≡ some row.id)
        × ((x : RequestStep) × (current_exec r ≡ some x) × (x.step ≡ row)))
Represents rows r ended_approved = IsOver r × IsDecidedAs approved r
Represents rows r ended_rejected = IsOver r × IsDecidedAs rejected r

-- The row that a step enters with is the one that the query finds.
find_entered :
    (x : RequestStep) (xs : List RequestStep)
    → IsClosed xs
    → x.completed_at ≡ none
    → find (is_open_at x.step.id) (xs ++ x ∷ []) ≡ some x
find_entered x [] c e = ground (arith, ==_iff x.step.id x.step.id)
find_entered x (y ∷ xs) ((t, p), c) e = ground (arith, find_entered x xs c e)

ltb-none :
    (rows : List WorkflowStep) (k : ℕ) → get_elem? rows k ≡ none → ltb k (length rows) ≡ false
ltb-none [] k e = ground arith
ltb-none (q ∷ rows) zero e = absurd (none-ne-some _ (sym e))
ltb-none (q ∷ rows) (suc k) e = ground (arith, ltb-none rows k e)

ltb-some :
    (rows : List WorkflowStep) (k : ℕ) {row : WorkflowStep}
    → get_elem? rows k ≡ some row
    → ltb k (length rows) ≡ true
ltb-some [] k e = absurd (none-ne-some _ e)
ltb-some (q ∷ rows) zero e = ground arith
ltb-some (q ∷ rows) (suc k) e = ground (arith, ltb-some rows k e)

module _ (py : Python) (catalog : Catalog) (rows : List WorkflowStep) where
  pub entered-Represents :
      (now k : ℕ) (row : WorkflowStep) (r : Instance)
      → get_elem? rows k ≡ some row
      → r.status ≡ in_progress
      → IsClosed r.steps
      → Represents rows (enter now row r) (at_step k)
  unfolding current_exec
  entered-Represents now k row r e s c = (
    (s, (row.id, refl, append-HasOneOpen (pending now row) r.steps c refl)),
    (row, e, refl, (pending now row, find_entered (pending now row) r.steps c refl, refl)),
  )

  pub logged-Represents :
      (action actor : String) (r : Instance) (s : Stage)
      → Represents rows r s
      → Represents rows (log_action action actor r) s
  unfolding current_exec
  logged-Represents action actor r (at_step k) h = h
  logged-Represents action actor r ended_approved h = h
  logged-Represents action actor r ended_rejected h = h

  -- The stage after an approval that leads to the given row, if any.
  approved-Represents :
      (now k : ℕ) (by : String) (o : Option WorkflowStep) (r : Instance)
      → get_elem? rows (suc k) ≡ o
      → r.status ≡ in_progress
      → IsClosed r.steps
      → Represents rows
          (advanced now "APPROVED" by o r)
          (if ltb (suc k) (length rows) then at_step (suc k) else ended_approved)
  approved-Represents now k by none r e s c =
      rw (ltb-none rows (suc k) e) ((refl, refl, c), (r.history, by, rw s refl))
  approved-Represents now k by (some row) r e s c =
      rw (ltb-some rows (suc k) e) (entered-Represents now (suc k) row r e s c)

  rejected-Represents :
      (now : ℕ) (by : String) (r : Instance)
      → r.status ≡ in_progress
      → IsClosed r.steps
      → Represents rows
          (log_action "STEP_COMPLETED" by (advanced now "REJECTED" by none r))
          ended_rejected
  rejected-Represents now by r s c = ((refl, refl, c), (r.history, by, rw s refl))

  decided-Represents :
      (a : Act) (k : ℕ) (r : Instance) (row : WorkflowStep) (d : Decision)
      → Follows py catalog rows
      → get_elem? rows k ≡ some row
      → r.status ≡ in_progress
      → r.current_step_id ≡ some row.id
      → HasOneOpen row.id r.steps
      → (s : Stage) × (advance (length rows) d (at_step k) ≡ some s)
        × Represents rows (decided py catalog a.now a.user (outcome_of d) a.context r row) s
  decided-Represents a k r row approval follows e s i h =
      let context = eval_context r a.context in
      let after = closed a.now "APPROVED" a.user.id a.context row r in
      let stage = if ltb (suc k) (length rows) then at_step (suc k) else ended_approved in
      let goes =
        ap (λ o. resolve_next py catalog o "APPROVED" context) i ∙ (follows context k row e).0 in
      let done_step = close_at-IsClosed row.id a.now a.user.id "APPROVED" a.context r.steps h in
      (
        stage,
        refl,
        logged-Represents "STEP_COMPLETED" a.user.id
            (advanced a.now "APPROVED" a.user.id
              (resolve_next py catalog r.current_step_id "APPROVED" context) after)
            stage
            (approved-Represents a.now k a.user.id
              (resolve_next py catalog r.current_step_id "APPROVED" context) after (sym goes) s
              done_step),
      )
  decided-Represents a k r row rejection follows e s i h =
      let context = eval_context r a.context in
      let after = closed a.now "REJECTED" a.user.id a.context row r in
      let goes =
        ap (λ o. resolve_next py catalog o "REJECTED" context) i ∙ (follows context k row e).1 in
      let done_step = close_at-IsClosed row.id a.now a.user.id "REJECTED" a.context r.steps h in
      (
        ended_rejected,
        refl,
        subst
            (λ o.
              Represents rows
                (log_action "STEP_COMPLETED" a.user.id
                  (advanced a.now "REJECTED" a.user.id o after))
                ended_rejected)
            (sym goes) (rejected-Represents a.now a.user.id after s done_step),
      )

  outcome_of-is_step_status : (d : Decision) → is_step_status (outcome_of d) ≡ true
  outcome_of-is_step_status approval = refl
  outcome_of-is_step_status rejection = refl

  -- One decision by a user who may decide on every step of the workflow.
  step-Represents :
      (a : Act) (k : ℕ) (r : Instance)
      → Follows py catalog rows
      → All (λ (row : WorkflowStep). refusal py a.user row ≡ none) rows
      → Represents rows r (at_step k)
      → (r' : Instance) × (s : Stage) × (process_step py catalog a.now a.user
            (outcome_of a.decision)
            a.context
            (some r)
          ≡ done r')
        × (advance (length rows) a.decision (at_step k) ≡ some s)
        × Represents rows r' s
  step-Represents a k r follows may (active, (row, e, i, (x, c, same))) =
      let permitted = All-get_elem? (λ q. refusal py a.user q ≡ none) k rows row may e in
      let (ran, j, h) =
        process_step-granted py catalog a.now a.user (outcome_of a.decision) a.context r x active c
          (rw same permitted) (outcome_of-is_step_status a.decision) in
      let (s, p, q) =
        decided-Represents a k r row a.decision follows e active.0 i
          (subst (λ (w : WorkflowStep). HasOneOpen w.id r.steps) same h) in
      (
        decided py catalog a.now a.user (outcome_of a.decision) a.context r row,
        s,
        subst
            (λ w.
              process_step py catalog a.now a.user (outcome_of a.decision) a.context (some r)
              ≡ done (decided py catalog a.now a.user (outcome_of a.decision) a.context r w))
            same ran,
        p,
        q,
      )

  -- A request stands at a stage of a chain of steps, and the chain takes a list of decisions from
  -- there to another stage. Then the engine carries the decisions out one after the other, if every
  -- user who takes one may decide on every step, and the request then stands at that other stage.
  pub process_all-Represents :
      (acts : List Act) (r : Instance) (s t : Stage)
      → Follows py catalog rows
      → All (λ (a : Act). All (λ (row : WorkflowStep). refusal py a.user row ≡ none) rows) acts
      → Represents rows r s
      → advance_all (length rows) (decisions acts) s ≡ some t
      → (r' : Instance) × (process_all py catalog acts r ≡ done r') × Represents rows r' t
  unfolding process_all advance_all
  process_all-Represents [] r s t follows may h e =
      (r, refl, subst (Represents rows r) (some-injective _ _ e) h)
  process_all-Represents (a ∷ acts) r (at_step k) t follows (mine, may) h e =
      let (r1, s1, ran, moved, h1) = step-Represents a k r follows mine h in
      let rest : advance_all (length rows) (decisions acts) s1 ≡ some t = rw moved at e in
      let (r2, all, h2) = process_all-Represents acts r1 s1 t follows may h1 rest in
      (r2, rw ran all, h2)
  process_all-Represents (a ∷ acts) r ended_approved t follows may h e = absurd (none-ne-some _ e)
  process_all-Represents (a ∷ acts) r ended_rejected t follows may h e = absurd (none-ne-some _ e)
