-- ===== src/Creation/Admission.antt =====
-- What becomes of the constructor's payload: when the schemas take it, and what they read.
use workflow_automation_plat.Common.{
  ℕ, zero, suc, ◌+◌, ◌≡◌, ◌≤◌, refl, ap, ◌∙◌, arith, String, Bool, true, false, Option, none, some,
  List, [], ◌∷◌, ◌++◌, map, All, length, length-map, inl, inr, leb, Option-cases,
}
use workflow_automation_plat.Js.{Host, Json, num, str, end}
use workflow_automation_plat.Ui.{Offers}
use workflow_automation_plat.Constructor.Nodes.{Step, default_transitions}
use workflow_automation_plat.Constructor.Payload.{Payload, format_step, or_null, wizard_payload}
use workflow_automation_plat.Constructor.Numbering.{NumberedFrom, HasDistinctIds}
use workflow_automation_plat.Constructor.Linear
use workflow_automation_plat.Constructor.Linear.{chain, wizard_payload-chain}
use workflow_automation_plat.Constructor.Page.{State, Draw, submit, wizard, update, post_workflow}
use workflow_automation_plat.Constructor.View.{view}
use workflow_automation_plat.Constructor.Reach.{Reaches, submit-Posts, Reaches-IsSound}
use workflow_automation_plat.Creation.{StepIn, WorkflowIn}
use workflow_automation_plat.Creation.Rows.{IsNumberedFrom}
use workflow_automation_plat.Creation.Chain
use workflow_automation_plat.Creation.Chain.{chain_in}
use workflow_automation_plat.Creation.Schema.{
  Pydantic, check, read_all, is_name, is_optional_uuid, is_optional_text, optional_int, read_step,
  read_transition, read_workflow,
}

-- The row that the page's step asks for.
abbrev pub step_in_of : Step → StepIn
step_in_of s = record {
  step_order = s.step_order;
  sla_hours = s.sla_hours;
  required_role_id = or_null s.required_role_id;
  required_permission_id = or_null s.required_permission_id;
}

module _ {ℓ κ μ} {A : Type ℓ} {B : Type κ} {C : Type μ} where
  read_all-none :
      (f : B → Option C) (g : A → B) (xs ys : List A) (x : A)
      → f (g x) ≡ none
      → read_all f (map g (xs ++ x ∷ ys)) ≡ none
  read_all-none f g [] ys x e = rw e refl
  read_all-none f g (z ∷ xs) ys x e = elim (Option-cases (f (g z))) [
    | inl n ↦ rw n refl
    | inr (w, p) ↦ rw (p, read_all-none f g xs ys x e) refl
  ]

check-none {ℓ} : {A : Type ℓ} (b : Bool) → check {A = A} b none ≡ none
check-none true = refl
check-none false = refl

module _ (py : Pydantic) where
  -- The name has between one and a hundred characters, and what is required of a user is a UUID.
  abbrev pub IsSendable : Step → Type 0
  IsSendable s =
      (is_name py 100 (some (str s.name)) ≡ true)
      × (1 ≤ s.sla_hours)
      × (is_optional_uuid py (or_null s.required_role_id) ≡ true)
      × (is_optional_uuid py (or_null s.required_permission_id) ≡ true)

  unnamed : (s : Step) → py.len s.name ≡ 0 → read_step py (format_step s) ≡ none
  unfolding read_step format_step
  unnamed s e = let short : leb 1 (py.len s.name) ≡ false = ground arith in rw short refl

  steps-refused :
      (p : Payload) (before after : List Step) (s : Step)
      → p.steps ≡ map format_step (before ++ s ∷ after)
      → py.len s.name ≡ 0
      → read_workflow py p ≡ none
  unfolding read_workflow
  steps-refused p before after s e short =
      rw (e, read_all-none (read_step py) format_step before after s (unnamed s short))
        (ap (check (is_name py 255 p.name)) (check-none (is_optional_text py p.description))
          ∙ check-none (is_name py 255 p.name))

  -- A submission that the wizard offers, in whichever way the page came to it, and a node of the
  -- page whose name is empty: the page posts the workflow, and the schemas refuse it.
  pub submit-refused :
      (host : Host) (d : Draw) {s : State} (before after : List Step) (step : Step)
      → Reaches host s
      → s.mode ≡ wizard
      → Offers (view host s) submit
      → s.workflow_steps ≡ before ++ step ∷ after
      → py.len step.name ≡ 0
      → (p : Payload) × ((update host d submit s).1 ≡ post_workflow p ∷ [])
        × (read_workflow py p ≡ none)
  submit-refused host d before after step r m o e short =
      let posts = submit-Posts host d r m o in
      (
        posts.payload,
        posts.posted,
        steps-refused posts.payload before after step (posts.steps ∙ ap (map format_step) e) short,
      )

module _ (py : Pydantic) (reads_numbers : (n : ℕ) → py.to_int (num n) ≡ some n) where
  read_step-sent :
      (s : Step)
      → 1 ≤ s.step_order
      → IsSendable py s
      → read_step py (format_step s) ≡ some (step_in_of s)
  unfolding read_step format_step
  read_step-sent s o (n, h, r, p) =
      let first : leb 1 s.step_order ≡ true = ground arith in
      let second : leb 1 s.sla_hours ≡ true = ground arith in
      rw (n, r, p, reads_numbers s.step_order, reads_numbers s.sla_hours, first, second) refl

  read_steps-sent :
      (i : ℕ) (steps : List Step)
      → NumberedFrom i steps
      → All (IsSendable py) steps
      → read_all (read_step py) (map format_step steps) ≡ some (map step_in_of steps)
  read_steps-sent i [] n h = refl
  read_steps-sent i (s ∷ steps) (e, n) (p, h) =
      rw (read_step-sent s (omega arith) p, read_steps-sent (suc i) steps n h) refl

  read_transition-sent :
      (a : ℕ) (to : Option Json) (b : Option ℕ) (outcome : String)
      → optional_int py to ≡ some b
      → read_transition py
          (record { from_step_order = some (num a); to_step_order = to; outcome = outcome })
        ≡ some (record {
          from_step_order = a;
          to_step_order = b;
          outcome = outcome;
          condition_config = end;
        })
  unfolding read_transition
  read_transition-sent a to b outcome e = rw (reads_numbers a, e) refl

  read_order_after :
      (i k : ℕ) → optional_int py (Linear.order_after i k) ≡ some (Chain.order_after i k)
  read_order_after i zero = refl
  read_order_after i (suc k) =
      rw (reads_numbers (i + 2)) (ap (λ (n : ℕ). some (some n)) (omega arith))

  read_transitions-chain :
      (i n : ℕ) → read_all (read_transition py) (chain i n) ≡ some (chain_in i n)
  read_transitions-chain i zero = refl
  read_transitions-chain i (suc n) =
      rw
        (
          read_transition-sent (i + 1) (Linear.order_after i n) (Chain.order_after i n) "APPROVED"
              (read_order_after i n),
          read_transition-sent (i + 1) none none "REJECTED" refl,
          read_transitions-chain (suc i) n,
        )
        refl

  read_workflow-sent :
      (p : Payload) (name description : String) (steps : List Step)
      → p.name ≡ some (str name)
      → p.description ≡ some (str description)
      → p.steps ≡ map format_step steps
      → p.transitions ≡ chain 0 (length steps)
      → is_name py 255 (some (str name)) ≡ true
      → NumberedFrom 0 steps
      → All (IsSendable py) steps
      → read_workflow py p
        ≡ some (record {
          name = name;
          steps = map step_in_of steps;
          transitions = chain_in 0 (length steps);
        })
  unfolding read_workflow
  read_workflow-sent p name description steps a b c d e n h =
      rw (a, b, c, d, e, read_steps-sent 0 steps n h, read_transitions-chain 0 (length steps)) refl

  -- The schemas read what the wizard posts back as the steps of the page, with their orders, and
  -- the chain of those orders: if the steps are numbered from one and have distinct identifiers,
  -- the name of the workflow has up to 255 characters and is not empty, and each step is sendable.
  pub wizard_payload-accepted :
      (name description : String) (steps : List Step)
      → NumberedFrom 0 steps
      → HasDistinctIds steps
      → is_name py 255 (some (str name)) ≡ true
      → All (IsSendable py) steps
      → read_workflow py (wizard_payload name description steps (default_transitions steps))
        ≡ some (record {
          name = name;
          steps = map step_in_of steps;
          transitions = chain_in 0 (length steps);
        })
  unfolding wizard_payload
  wizard_payload-accepted name description steps n d e h =
      read_workflow-sent (wizard_payload name description steps (default_transitions steps)) name
        description steps refl refl refl (wizard_payload-chain name description steps n d) e n h

  map-IsNumberedFrom :
      (i : ℕ) (steps : List Step) → NumberedFrom i steps → IsNumberedFrom i (map step_in_of steps)
  map-IsNumberedFrom i [] h = tt
  map-IsNumberedFrom i (s ∷ steps) (e, h) = (e, map-IsNumberedFrom (suc i) steps h)

  -- A submission by the wizard, in whichever way the page came to it: if the schemas take its name
  -- and its steps, the workflow that the service creates has the steps of the page, numbered from
  -- one, at least one of them, and the chain of their orders.
  pub submit-accepted :
      (host : Host) (d : Draw) {s : State}
      → Reaches host s
      → s.mode ≡ wizard
      → Offers (view host s) submit
      → is_name py 255 (some (str s.name)) ≡ true
      → All (IsSendable py) s.workflow_steps
      → (p : Payload) × (input : WorkflowIn) × ((update host d submit s).1 ≡ post_workflow p ∷ [])
        × (read_workflow py p ≡ some input)
        × (input.steps ≡ map step_in_of s.workflow_steps)
        × IsNumberedFrom 0 input.steps
        × (1 ≤ length input.steps)
        × (input.transitions ≡ chain_in 0 (length input.steps))
        × (input.name ≡ s.name)
  submit-accepted host d {s} r m o e h =
      let sound = Reaches-IsSound host r in
      let posts = submit-Posts host d r m o in
      let steps = map step_in_of s.workflow_steps in
      let size : length steps ≡ length s.workflow_steps = length-map step_in_of s.workflow_steps in
      (
        posts.payload,
        record { name = s.name; steps = steps; transitions = chain_in 0 (length s.workflow_steps) },
        posts.posted,
        read_workflow-sent posts.payload s.name s.description s.workflow_steps posts.name
            posts.description posts.steps posts.transitions e sound.numbered h,
        refl,
        map-IsNumberedFrom 0 s.workflow_steps sound.numbered,
        rw size posts.populated,
        rw size refl,
        refl,
      )
