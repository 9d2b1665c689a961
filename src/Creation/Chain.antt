-- ===== src/Creation/Chain.antt =====
-- The engine on a workflow that was created from the chain of the constructor page.
use workflow_automation_plat.Common.{
  Bool-cases, inl, inr, any, ℕ, zero, suc, ◌+◌, ◌≡◌, ◌≢◌, ◌≤◌, refl, sym, subst, ◌∙◌, arith, String,
  Bool, false, Option, none, some, List, [], ◌∷◌, ◌++◌, str_eq, ◌==◌, ==_iff, All, keep, ◌&&◌,
  get_elem?, length,
}
use mathlib.Core.Option.{some-injective, none-ne-some}
use workflow_automation_plat.Js.{Fields, end}
use workflow_automation_plat.Engine.Conditions.{Python, evaluate}
use workflow_automation_plat.Engine.Process.{WorkflowStep, StepTransition, Catalog}
use workflow_automation_plat.Engine.Step.{resolve_next, choose_transition}
use workflow_automation_plat.Creation.Rows.{
  IsNumberedFrom, RowsFrom, HasDistinctRows, All-get_elem?, create_steps-RowsFrom,
  create_steps-length, create_steps-from, create_steps-HasDistinctRows,
}
use workflow_automation_plat.Creation.{
  add_workflow, is_named, has_references, StepIn, TransitionIn, WorkflowIn, create_steps, step_at,
  target, create_transitions, create_workflow,
}

-- The order after `i + 1`, if `k` more steps follow.
abbrev pub order_after : ℕ → ℕ → Option ℕ
order_after i zero = none
order_after i (suc k) = some (suc i + 1)

-- The transitions that the constructor posts for steps of the orders from `i + 1` on.
abbrev pub chain_in : ℕ → ℕ → List TransitionIn
chain_in i zero = []
chain_in i (suc k) =
    record {
      from_step_order = i + 1;
      to_step_order = order_after i k;
      outcome = "APPROVED";
      condition_config = end;
    }
    ∷ record {
      from_step_order = i + 1;
      to_step_order = none;
      outcome = "REJECTED";
      condition_config = end;
    }
    ∷ chain_in (suc i) k

-- The first of the rows.
abbrev first : List WorkflowStep → Option WorkflowStep
first [] = none
first (r ∷ rows) = some r

-- The transitions between rows that follow each other.
abbrev linked : List WorkflowStep → List StepTransition
linked [] = []
linked (r ∷ rows) =
    record {
      from_step_id = r.id;
      to_step = first rows;
      outcome = "APPROVED";
      condition_config = end;
    }
    ∷ record { from_step_id = r.id; to_step = none; outcome = "REJECTED"; condition_config = end }
    ∷ linked rows

step_at-above :
    (o i : ℕ) (rows : List WorkflowStep) → o ≤ i → RowsFrom i rows → step_at o rows ≡ none
unfolding step_at
step_at-above o i [] h _ = refl
step_at-above o i (r ∷ rows) h (e, k) =
    let rest = step_at-above o (suc i) rows (omega arith) k in ground (arith, ==_iff r.step_order o)

step_at-first :
    (i : ℕ) (r : WorkflowStep) (rows : List WorkflowStep)
    → RowsFrom i (r ∷ rows)
    → step_at (i + 1) (r ∷ rows) ≡ some r
unfolding step_at
step_at-first i r rows (e, k) =
    rw (step_at-above (i + 1) (suc i) rows (omega arith) k, (==_iff r.step_order (i + 1)).1 e) refl

first_order :
    (i : ℕ) (rest whole : List WorkflowStep)
    → RowsFrom (suc i) rest
    → ((o : ℕ) (t : WorkflowStep) → step_at o rest ≡ some t → step_at o whole ≡ some t)
    → target (order_after i (length rest)) whole ≡ first rest
first_order i [] whole n found = refl
first_order i (q ∷ rest) whole n found = found (suc i + 1) q (step_at-first (suc i) q rest n)

step_at-cons :
    (o : ℕ) (r t : WorkflowStep) (rest : List WorkflowStep)
    → step_at o rest ≡ some t
    → step_at o (r ∷ rest) ≡ some t
unfolding step_at
step_at-cons o r t rest e = rw e refl

create_transitions-linked :
    (whole : List WorkflowStep) (i : ℕ) (rest : List WorkflowStep)
    → RowsFrom i rest
    → ((o : ℕ) (t : WorkflowStep) → step_at o rest ≡ some t → step_at o whole ≡ some t)
    → create_transitions whole (chain_in i (length rest)) ≡ linked rest
unfolding create_transitions
create_transitions-linked whole i [] n found = refl
create_transitions-linked whole i (r ∷ rest) n found =
    let later = λ (o : ℕ) (t : WorkflowStep) (e : step_at o rest ≡ some t).
      found o t (step_at-cons o r t rest e) in
    rw
      (
        found (i + 1) r (step_at-first i r rest n),
        first_order i rest whole n.1 later,
        create_transitions-linked whole (suc i) rest n.1 later,
      )
      refl

abbrev leads : ℕ → String → StepTransition → Bool
leads id outcome t = (t.from_step_id == id) && str_eq t.outcome outcome

first_elem : (rows : List WorkflowStep) → first rows ≡ get_elem? rows 0
first_elem [] = refl
first_elem (r ∷ rows) = refl

-- What the engine chooses at a row, among the transitions between rows that follow each other.
chosen :
    (py : Python) (context : Fields) (rows : List WorkflowStep) (k : ℕ) (r : WorkflowStep)
    → HasDistinctRows rows
    → get_elem? rows k ≡ some r
    → (choose_transition py context (keep (leads r.id "APPROVED") (linked rows))
        ≡ get_elem? rows (suc k))
      × (choose_transition py context (keep (leads r.id "REJECTED") (linked rows)) ≡ none)
unfolding choose_transition evaluate
chosen py context [] k r d e = absurd (none-ne-some _ e)
chosen py context (q ∷ rows) zero r (f, d) e =
    let same = some-injective _ _ e in
    let equal = (==_iff q.id q.id).1 refl in
    (rw (sym same) (rw equal (first_elem rows)), rw (sym same) (rw equal refl))
chosen py context (q ∷ rows) (suc k) r (f, d) e =
    let other = All-get_elem? (λ x. x.id ≢ q.id) k rows r f e in
    let (a, b) = chosen py context rows k r d e in
    let skip : (q.id == r.id) ≡ false = ground (arith, ==_iff q.id r.id) in (rw skip a, rw skip b)

keep-append :
    (id : ℕ) (outcome : String) (old new : List StepTransition)
    → All (λ (t : StepTransition). t.from_step_id ≢ id) old
    → keep (leads id outcome) (old ++ new) ≡ keep (leads id outcome) new
keep-append id outcome [] new h = refl
keep-append id outcome (t ∷ old) new (n, h) =
    ground (arith, ==_iff t.from_step_id id, keep-append id outcome old new h)

All-unused :
    (ts : List StepTransition) (id : ℕ) (ids : ℕ → ℕ) (j : ℕ)
    → id ≡ ids j
    → All (λ (t : StepTransition). (i : ℕ) → t.from_step_id ≢ ids i) ts
    → All (λ (t : StepTransition). t.from_step_id ≢ id) ts
All-unused [] id ids j e h = tt
All-unused (t ∷ ts) id ids j e (n, h) = (λ p. n j (p ∙ e), All-unused ts id ids j e h)

-- What a creation that the database takes leaves.
pub create_workflow-add_workflow :
    (ids : ℕ → ℕ) (workflow_id : ℕ) (input : WorkflowIn) (catalog : Catalog) {after : Catalog}
    → create_workflow ids workflow_id input catalog ≡ some after
    → add_workflow ids workflow_id input catalog ≡ after
unfolding create_workflow
create_workflow-add_workflow ids workflow_id input catalog e =
    elim (Bool-cases (any (is_named input.name) catalog.workflows)) [
      | inl taken ↦ absurd (none-ne-some _ (rw taken at e))
      | inr free ↦ elim (Bool-cases (has_references catalog input.steps)) [
        | inl known ↦ some-injective _ _ (rw (free, known) at e)
        | inr unknown ↦ absurd (none-ne-some _ (rw (free, unknown) at e))
      ]
    ]

pub add_workflow-chain :
    (py : Python) (ids : ℕ → ℕ) (workflow_id : ℕ) (name : String) (steps : List StepIn)
    (catalog : Catalog) (context : Fields) (k : ℕ) (r : WorkflowStep)
    → ((i j : ℕ) → ids i ≡ ids j → i ≡ j)
    → All (λ (t : StepTransition). (i : ℕ) → t.from_step_id ≢ ids i) catalog.transitions
    → IsNumberedFrom 0 steps
    → get_elem? (create_steps ids workflow_id 0 steps) k ≡ some r
    → let input : WorkflowIn = record {
      name = name;
      steps = steps;
      transitions = chain_in 0 (length steps);
    } in
      let after = add_workflow ids workflow_id input catalog in
      (resolve_next py after (some r.id) "APPROVED" context
        ≡ get_elem? (create_steps ids workflow_id 0 steps) (suc k))
      × (resolve_next py after (some r.id) "REJECTED" context ≡ none)
unfolding add_workflow resolve_next
add_workflow-chain py ids workflow_id name steps catalog context k r inj old n e =
    let rows = create_steps ids workflow_id 0 steps in
    let (j, _, same) = All-get_elem? _ k rows r (create_steps-from ids workflow_id 0 steps) e in
    let transitions = create_transitions rows (chain_in 0 (length steps)) in
    let links : transitions ≡ linked rows =
      subst (λ m. create_transitions rows (chain_in 0 m) ≡ linked rows)
        (create_steps-length ids workflow_id 0 steps)
        (create_transitions-linked rows 0 rows (create_steps-RowsFrom ids workflow_id 0 steps n)
          (λ o t h. h)) in
    let unused = All-unused catalog.transitions r.id ids j same old in
    let (a, b) =
      chosen py context rows k r (create_steps-HasDistinctRows ids workflow_id 0 steps inj) e in
    (
      rw (keep-append r.id "APPROVED" catalog.transitions transitions unused, links) a,
      rw (keep-append r.id "REJECTED" catalog.transitions transitions unused, links) b,
    )

-- A workflow is created from steps that are numbered from one and from the chain of their orders,
-- with new identifiers that are distinct and that no older transition starts from. Then, whatever
-- the data of a request, approving a step of the workflow leads the engine to the step after it, or
-- to none behind the last, and rejecting one leads to none.
pub create_workflow-chain :
    (py : Python) (ids : ℕ → ℕ) (workflow_id : ℕ) (name : String) (steps : List StepIn)
    (catalog : Catalog) {after : Catalog} (context : Fields) (k : ℕ) (r : WorkflowStep)
    → ((i j : ℕ) → ids i ≡ ids j → i ≡ j)
    → All (λ (t : StepTransition). (i : ℕ) → t.from_step_id ≢ ids i) catalog.transitions
    → IsNumberedFrom 0 steps
    → get_elem? (create_steps ids workflow_id 0 steps) k ≡ some r
    → create_workflow ids workflow_id
        (record { name = name; steps = steps; transitions = chain_in 0 (length steps) })
        catalog
      ≡ some after
    → (resolve_next py after (some r.id) "APPROVED" context
        ≡ get_elem? (create_steps ids workflow_id 0 steps) (suc k))
      × (resolve_next py after (some r.id) "REJECTED" context ≡ none)
create_workflow-chain py ids workflow_id name steps catalog context k r inj old n e made =
    subst
      (λ after.
        (resolve_next py after (some r.id) "APPROVED" context
          ≡ get_elem? (create_steps ids workflow_id 0 steps) (suc k))
        × (resolve_next py after (some r.id) "REJECTED" context ≡ none))
      (create_workflow-add_workflow ids workflow_id
        (record { name = name; steps = steps; transitions = chain_in 0 (length steps) }) catalog
        made)
      (add_workflow-chain py ids workflow_id name steps catalog context k r inj old n e)
