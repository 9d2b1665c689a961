-- ===== src/Server/MyTasks.antt =====
-- The list of tasks agrees with the engine: a user is shown what the engine lets them decide.
use workflow_automation_plat.Common.{
  ℕ, ◌≡◌, ◌↔◌, refl, sym, ap, subst, ◌∙◌, arith, String, true, false, none, some, List, [], ◌∷◌,
  map, All, All-IsIn, IsIn, IsIn-append_cases, IsIn-append_left, IsIn-append_right, find, inl, inr,
  Bool-cases, eq_refl, if◌then◌else◌,
}
use mathlib.Core.Bool.{false≢true}
use mathlib.Core.Option.{some-injective, none-ne-some}
use workflow_automation_plat.Js.{Fields}
use workflow_automation_plat.Engine.Conditions.{Python}
use workflow_automation_plat.Engine.Process.{
  raised, status_refused, Catalog, User, WorkflowStep, RequestStep, Instance, done, current_exec,
  is_open_at,
}
use workflow_automation_plat.Engine.Step.{is_step_status, process_step, refusal}
use workflow_automation_plat.Engine.Progress.{
  decided, IsClosed, HasOneOpen, IsActive, is_open_at-open, is_open_at-closed, process_step-settled,
}
use workflow_automation_plat.Engine.Invariant.{IsConsistent}
use workflow_automation_plat.Engine.Waiting.{IsWaiting}
use workflow_automation_plat.Server.Store.{RequestRow, Db}
use workflow_automation_plat.Server.Listing.{is_pending, may_decide, tasks_of, my_tasks}
use workflow_automation_plat.Server.Kept.{IsKept}
use workflow_automation_plat.Server.Invariant.{Reaches, Reaches-AllKept}

-- The filter of the list and the check of the engine are the same.
pub may_decide_iff :
    (py : Python) (user : User) (step : WorkflowStep)
    → (may_decide py user step ≡ true) ↔ (refusal py user step ≡ none)
unfolding refusal
may_decide_iff py user step = ground arith

module _ (py : Python) (user : User) where
  abbrev shown : RequestStep → List RequestStep
  shown x = if may_decide py user x.step then x ∷ [] else []

  closed-tasks : (xs : List RequestStep) → IsClosed xs → tasks_of py user xs ≡ []
  unfolding tasks_of
  closed-tasks [] h = refl
  closed-tasks (x ∷ xs) ((t, e), h) =
      let shut : is_pending x ≡ false = ground arith in rw (shut, closed-tasks xs h) refl

  open-tasks :
      (id : ℕ) (xs : List RequestStep)
      → HasOneOpen id xs
      → All IsWaiting xs
      → (x : RequestStep) × (find (is_open_at id) xs ≡ some x) × (tasks_of py user xs ≡ shown x)
  unfolding tasks_of
  open-tasks id [] h w = elim h [ ]
  open-tasks id (x ∷ xs) (inl (e, f, c)) (p, w) =
      let waits : is_pending x ≡ true = rw (p e, e, eq_refl "PENDING") refl in
      (x, rw (is_open_at-open id x e f) refl, rw (waits, closed-tasks xs c) refl)
  open-tasks id (x ∷ xs) (inr ((t, e), h)) (p, w) =
      let (y, f, g) = open-tasks id xs h w in
      let shut : is_pending x ≡ false = ground arith in
      (y, rw (is_open_at-closed id t x e) f, rw shut g)

  shown-mem : (x y : RequestStep) → IsIn y (shown x) ↔ ((x ≡ y) × (refusal py user y.step ≡ none))
  shown-mem x y = elim (Bool-cases (may_decide py user x.step)) [
    | inl e ↦ rw e (
      (λ h. elim h [
        | inl p ↦ (sym p, rw p ((may_decide_iff py user x.step).0 e))
        | inr k ↦ absurd k
      ]),
      λ (p, k). inl (sym p),
    )
    | inr e ↦ rw e (
      (λ h. absurd h),
      λ (p, k). absurd (false≢true (sym e ∙ (may_decide_iff py user x.step).1 (rw p k))),
    )
  ]

  tasks_of-mem :
      (r : Instance) (y : RequestStep)
      → IsKept r
      → IsIn y (tasks_of py user r.steps)
        ↔ ((current_exec r ≡ some y) × (refusal py user y.step ≡ none))
  unfolding current_exec
  tasks_of-mem r y ((t, inl (s, (id, e, h))), w) =
      let (x, f, g) = open-tasks id r.steps h w in
      let (to, from) = shown-mem x y in
      rw (g, e, f)
        ((λ k. (ap (λ z. some z) (to k).0, (to k).1)), λ (p, k). from (some-injective _ _ p, k))
  tasks_of-mem r y ((t, inr (s, e, c)), w) =
      rw (closed-tasks r.steps c, e) ((λ h. absurd h), λ (p, k). absurd (none-ne-some _ p))

module _ {A : Type 0} (id : ℕ) where
  IsIn-tagged :
      (p : ℕ × A) (xs : List A) → IsIn p (map (λ x. (id, x)) xs) → (id ≡ p.0) × IsIn p.1 xs
  IsIn-tagged p [] h = elim h [ ]
  IsIn-tagged p (x ∷ xs) (inl e) = (ap (λ q. q.0) (sym e), inl (ap (λ q. q.1) e))
  IsIn-tagged p (x ∷ xs) (inr h) = let (e, k) = IsIn-tagged p xs h in (e, inr k)

  IsIn-tag : (a : A) (xs : List A) → IsIn a xs → IsIn {A = ℕ × A} (id, a) (map (λ x. (id, x)) xs)
  IsIn-tag a [] h = elim h [ ]
  IsIn-tag a (x ∷ xs) (inl e) = inl (ap (λ y. (id, y)) e)
  IsIn-tag a (x ∷ xs) (inr h) = inr (IsIn-tag a xs h)

module _ (py : Python) (user : User) where
  listed_row :
      (p : ℕ × RequestStep) (rows : List RequestRow)
      → IsIn p (my_tasks py user rows)
      → (row : RequestRow) × IsIn row rows
        × (row.id ≡ p.0)
        × IsIn p.1 (tasks_of py user row.state.steps)
  unfolding my_tasks
  listed_row p [] h = elim h [ ]
  listed_row p (r ∷ rows) h =
      elim (IsIn-append_cases p (map (λ x. (r.id, x)) (tasks_of py user r.state.steps)) _ h) [
        | inl k ↦
            let (e, i) = IsIn-tagged r.id p (tasks_of py user r.state.steps) k in
            (r, inl refl, e, i)
        | inr k ↦ let (row, i, e, t) = listed_row p rows k in (row, inr i, e, t)
      ]

  listed-IsIn :
      (x : RequestStep) (row : RequestRow) (rows : List RequestRow)
      → IsIn row rows
      → IsIn x (tasks_of py user row.state.steps)
      → IsIn {A = ℕ × RequestStep} (row.id, x) (my_tasks py user rows)
  unfolding my_tasks
  listed-IsIn x row [] h k = elim h [ ]
  listed-IsIn x row (r ∷ rows) (inl e) k =
      IsIn-append_left _ (map (λ y. (r.id, y)) (tasks_of py user r.state.steps)) _ (
        subst
          (λ q.
            IsIn {A = ℕ × RequestStep} (q.id, x)
              (map (λ y. (r.id, y)) (tasks_of py user r.state.steps)))
          (sym e)
          (IsIn-tag r.id x (tasks_of py user r.state.steps)
            (subst (λ q. IsIn x (tasks_of py user q.state.steps)) e k)))
  listed-IsIn x row (r ∷ rows) (inr h) k =
      IsIn-append_right _ (map (λ y. (r.id, y)) (tasks_of py user r.state.steps)) _
        (listed-IsIn x row rows h k)

  -- In every state that the database reaches, a user's list of tasks has exactly the current steps
  -- of the requests on which the engine lets this user decide, each with its request.
  pub my_tasks-mem :
      {db : Db} (id : ℕ) (x : RequestStep)
      → Reaches py db
      → IsIn {A = ℕ × RequestStep} (id, x) (my_tasks py user db.requests) ↔ (
          (row : RequestRow) × IsIn row db.requests
          × (row.id ≡ id)
          × (current_exec row.state ≡ some x)
          × (refusal py user x.step ≡ none))
  my_tasks-mem {db} id x h =
      let kept = λ (row : RequestRow) (i : IsIn row db.requests).
        All-IsIn (λ (r : RequestRow). IsKept r.state) db.requests row (Reaches-AllKept py h) i in
      (
        (λ k.
            let (row, i, e, t) = listed_row (id, x) db.requests k in
            let (c, f) = (tasks_of-mem py user row.state x (kept row i)).0 t in (row, i, e, c, f)),
        λ (row, i, e, c, f).
            subst (λ n. IsIn {A = ℕ × RequestStep} (n, x) (my_tasks py user db.requests)) e
              (listed-IsIn x row db.requests i
                ((tasks_of-mem py user row.state x (kept row i)).1 (c, f))),
      )

  current_exec-IsActive :
      (r : Instance) {x : RequestStep} → IsConsistent r → current_exec r ≡ some x → IsActive r
  unfolding current_exec
  current_exec-IsActive r (t, inl a) e = a
  current_exec-IsActive r (t, inr (s, n, c)) e = absurd (none-ne-some _ (rw n at e))

  -- Whatever the user decides on a task of the list, and whenever, if the request is still as it was
  -- listed: a decision whose outcome is a status of steps is carried out by the engine, and the
  -- database refuses any other.
  pub my_tasks_granted :
      {db : Db} (id : ℕ) (x : RequestStep) (catalog : Catalog) (now : ℕ) (outcome : String)
      (context : Fields)
      → Reaches py db
      → IsIn {A = ℕ × RequestStep} (id, x) (my_tasks py user db.requests)
      → (row : RequestRow) × IsIn row db.requests
        × (row.id ≡ id)
        × (process_step py catalog now user outcome context (some row.state) ≡ (
            if is_step_status outcome
            then done (decided py catalog now user outcome context row.state x.step)
            else raised status_refused))
  my_tasks_granted {db} id x catalog now outcome context h k =
      let (row, i, e, c, f) = (my_tasks-mem id x h).0 k in
      let kept =
        All-IsIn (λ (r : RequestRow). IsKept r.state) db.requests row (Reaches-AllKept py h) i in
      let settled =
        process_step-settled py catalog now user outcome context row.state x
          (current_exec-IsActive row.state kept.0 c) c f in
      (row, i, e, settled)
