-- ===== src/Timeline.antt =====
-- The steps of a request, in the order in which frontend/src/app/tasks/page.tsx and
-- frontend/src/app/requests/[id]/page.tsx list them.
use workflow_automation_plat.Common.{
  ℕ, String, Option, none, some, List, [], ◌∷◌, leb, if◌then◌else◌,
}

-- One step of a request, as requests/{id} answers it.
pub record StepInfo : Type 0 where
  pub id : String
  pub step_name : Option String
  pub step_order : Option ℕ
  pub status : String
  pub completed_at : Option String
  pub deadline : Option ℕ
  pub outcome : Option String

-- `step.step_order || 0`.
abbrev pub order : StepInfo → ℕ
order s = elim s.step_order [ none ↦ 0 | some n ↦ n ]

-- `sort` is stable, and so goes before the first step whose order is not smaller.
unfoldable pub insert : StepInfo → List StepInfo → List StepInfo
insert s [] = s ∷ []
insert s (t ∷ ts) = if leb (order s) (order t) then s ∷ t ∷ ts else t ∷ insert s ts

-- `steps.sort((a, b) => (a.step_order || 0) - (b.step_order || 0))`.
unfoldable pub sort : List StepInfo → List StepInfo
unfolding insert
sort [] = []
sort (s ∷ ss) = insert s (sort ss)
