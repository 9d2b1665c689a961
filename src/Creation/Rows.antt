-- ===== src/Creation/Rows.antt =====
-- The rows that `create_workflow` adds for the steps of a workflow.
use workflow_automation_plat.Common.{
  ℕ, zero, suc, ◌+◌, ◌≡◌, ◌≢◌, ◌≤◌, refl, sym, ap, subst, ◌∙◌, arith, some, List, [], ◌∷◌, All,
  get_elem?, length,
}
use mathlib.Core.Option.{some-injective, none-ne-some}
use workflow_automation_plat.Engine.Process.{WorkflowStep}
use workflow_automation_plat.Creation.{StepIn, create_steps}

-- The orders are consecutive, from `i + 1` on.
abbrev pub IsNumberedFrom : ℕ → List StepIn → Type 0
IsNumberedFrom i [] = Unit
IsNumberedFrom i (s ∷ steps) = (s.step_order ≡ i + 1) × IsNumberedFrom (suc i) steps

-- Rows of consecutive orders.
abbrev pub RowsFrom : ℕ → List WorkflowStep → Type 0
RowsFrom i [] = Unit
RowsFrom i (r ∷ rows) = (r.step_order ≡ i + 1) × RowsFrom (suc i) rows

abbrev pub HasDistinctRows : List WorkflowStep → Type 0
HasDistinctRows [] = Unit
HasDistinctRows (r ∷ rows) = All (λ (q : WorkflowStep). q.id ≢ r.id) rows × HasDistinctRows rows

pub All-imp :
    (P Q : WorkflowStep → Type 0) (rows : List WorkflowStep)
    → ((r : WorkflowStep) → P r → Q r)
    → All P rows
    → All Q rows
All-imp P Q [] f h = tt
All-imp P Q (r ∷ rows) f (p, h) = (f r p, All-imp P Q rows f h)

pub All-get_elem? :
    (P : WorkflowStep → Type 0) (k : ℕ) (rows : List WorkflowStep) (r : WorkflowStep)
    → All P rows
    → get_elem? rows k ≡ some r
    → P r
All-get_elem? P zero (q ∷ rows) r (p, h) e = subst P (some-injective _ _ e) p
All-get_elem? P (suc k) (q ∷ rows) r (p, h) e = All-get_elem? P k rows r h e
All-get_elem? P k [] r h e = absurd (none-ne-some _ e)

module _ (ids : ℕ → ℕ) (workflow_id : ℕ) where
  pub create_steps-RowsFrom :
      (i : ℕ) (steps : List StepIn)
      → IsNumberedFrom i steps
      → RowsFrom i (create_steps ids workflow_id i steps)
  unfolding create_steps
  create_steps-RowsFrom i [] h = tt
  create_steps-RowsFrom i (s ∷ steps) (e, h) = (e, create_steps-RowsFrom (suc i) steps h)

  pub create_steps-length :
      (i : ℕ) (steps : List StepIn) → length (create_steps ids workflow_id i steps) ≡ length steps
  unfolding create_steps
  create_steps-length i [] = refl
  create_steps-length i (s ∷ steps) = ap suc (create_steps-length (suc i) steps)

  pub create_steps-from :
      (i : ℕ) (steps : List StepIn)
      → All
          (λ (r : WorkflowStep). (j : ℕ) × (i ≤ j) × (r.id ≡ ids j))
          (create_steps ids workflow_id i steps)
  unfolding create_steps
  create_steps-from i [] = tt
  create_steps-from i (s ∷ steps) = (
    (i, omega arith, refl),
    All-imp _ _ (create_steps ids workflow_id (suc i) steps) (λ r (j, h, e). (j, omega arith, e))
        (create_steps-from (suc i) steps),
  )

  pub create_steps-HasDistinctRows :
      (i : ℕ) (steps : List StepIn)
      → ((j k : ℕ) → ids j ≡ ids k → j ≡ k)
      → HasDistinctRows (create_steps ids workflow_id i steps)
  unfolding create_steps
  create_steps-HasDistinctRows i [] inj = tt
  create_steps-HasDistinctRows i (s ∷ steps) inj = (
    All-imp _ _ (create_steps ids workflow_id (suc i) steps)
        (λ r (j, h, e) same. let eq = inj j i (sym e ∙ same) in omega arith)
        (create_steps-from (suc i) steps),
    create_steps-HasDistinctRows (suc i) steps inj,
  )
