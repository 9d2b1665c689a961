-- ===== src/Server/Races.antt =====
-- Two users who decide on the same task: a decision names the request, but not the step.
use workflow_automation_plat.Common.{
  ℕ, suc, ◌≡◌, ◌<◌, refl, ap, ◌∙◌, arith, true, none, List, [], ◌∷◌, All, IsIn, length, ltb,
  if◌then◌else◌,
}
use workflow_automation_plat.Js.{Fields}
use workflow_automation_plat.Engine.Conditions.{Python}
use workflow_automation_plat.Engine.Process.{User, WorkflowStep, RequestStep, Instance, done}
use workflow_automation_plat.Engine.Step.{refusal}
use workflow_automation_plat.Creation.Rows.{All-get_elem?}
use workflow_automation_plat.Journey.{
  at_step, ended_approved, approval, advance_all, Act, process_all,
}
use workflow_automation_plat.Journey.Refinement.{Follows, Represents, process_all-Represents}
use workflow_automation_plat.Server.Store.{RequestRow, Db}
use workflow_automation_plat.Server.Listing.{my_tasks}
use workflow_automation_plat.Server.Invariant.{Reaches}
use workflow_automation_plat.Server.MyTasks.{my_tasks-mem}

module _ (py : Python) (one other : User) (now later : ℕ) (context : Fields) where
  abbrev pub both_approve : List Act
  both_approve =
      record { now = now; user = one; decision = approval; context = context }
      ∷ record { now = later; user = other; decision = approval; context = context }
      ∷ []

  -- Two users who may decide on every step of a chain are shown the same step of a request as their
  -- task, and it is not the last. If both approve it, one after the other, then both calls succeed,
  -- and the second approval is that of the next step, whoever has seen it: the request stands two
  -- steps further, or has ended as an approved one.
  pub same_task_twice :
      {db : Db} (row : RequestRow) (rows : List WorkflowStep) (k : ℕ)
      → Reaches py db
      → IsIn row db.requests
      → Follows py db.catalog rows
      → Represents rows row.state (at_step k)
      → suc k < length rows
      → All (λ (s : WorkflowStep). refusal py one s ≡ none) rows
      → All (λ (s : WorkflowStep). refusal py other s ≡ none) rows
      → (x : RequestStep) × (r' : Instance) × IsIn {A = ℕ × RequestStep}
          (row.id, x)
          (my_tasks py one db.requests)
        × IsIn {A = ℕ × RequestStep} (row.id, x) (my_tasks py other db.requests)
        × (process_all py db.catalog both_approve row.state ≡ done r')
        × Represents rows r'
            (if ltb (suc (suc k)) (length rows) then at_step (suc (suc k)) else ended_approved)
  same_task_twice {db} row rows k reached i follows h more one_may other_may =
      let (active, (s, e, _, (x, c, f))) = h in
      let may = λ (u : User) (all : All (λ (q : WorkflowStep). refusal py u q ≡ none) rows).
        ap (refusal py u) f ∙ All-get_elem? (λ q. refusal py u q ≡ none) k rows s all e in
      let test : ltb (suc k) (length rows) ≡ true = ground arith in
      let stage =
        if ltb (suc (suc k)) (length rows) then at_step (suc (suc k)) else ended_approved in
      let (r', ran, t) =
        process_all-Represents py db.catalog rows both_approve row.state (at_step k) stage follows
          (one_may, (other_may, tt)) h (unfold advance_all in rw test refl) in
      (
        x,
        r',
        (my_tasks-mem py one row.id x reached).1 (row, i, refl, c, may one one_may),
        (my_tasks-mem py other row.id x reached).1 (row, i, refl, c, may other other_may),
        ran,
        t,
      )
