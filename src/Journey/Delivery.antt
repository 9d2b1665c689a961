-- ===== src/Journey/Delivery.antt =====
-- From the constructor to the end of a request: what the wizard submits runs as it was designed.
use workflow_automation_plat.Common.{
  any, false, refl, ℕ, suc, ◌≡◌, ◌≢◌, ◌≤◌, sym, ap, subst, ◌∙◌, arith, String, true, none, some,
  List, [], ◌∷◌, map, All, length, length-map,
}
use workflow_automation_plat.Js.{Host, Fields, str, num}
use workflow_automation_plat.Ui.{Offers}
use workflow_automation_plat.Constructor.Page.{State, Draw, wizard, submit, update, post_workflow}
use workflow_automation_plat.Constructor.Payload.{Payload}
use workflow_automation_plat.Constructor.View.{view}
use workflow_automation_plat.Constructor.Reach.{Reaches}
use workflow_automation_plat.Lifecycle.{approved, completed}
use workflow_automation_plat.Engine.Conditions.{Python}
use workflow_automation_plat.Engine.Process.{
  User, Catalog, WorkflowStep, StepTransition, Instance, done, start_workflow,
}
use workflow_automation_plat.Engine.Step.{refusal}
use workflow_automation_plat.Creation.{
  StepIn, TransitionIn, WorkflowIn, create_steps, create_workflow, add_workflow, is_named,
  has_references,
}
use workflow_automation_plat.Creation.Rows.{IsNumberedFrom}
use workflow_automation_plat.Creation.Chain.{chain_in}
use workflow_automation_plat.Creation.Schema.{Pydantic, is_name, read_workflow}
use workflow_automation_plat.Creation.Admission.{IsSendable, step_in_of, submit-accepted}
use workflow_automation_plat.Rbac.{check_role}
use workflow_automation_plat.Server.Store.{Db}
use workflow_automation_plat.Server.Protocols.{create_workflow_as}
use workflow_automation_plat.Journey.{Act, process_all, ended_approved}
use workflow_automation_plat.Journey.Refinement.{IsDecidedAs, Represents}
use workflow_automation_plat.Journey.Completion.{
  AllApprove, IsNewWorkflow, stage_after, approvals_complete,
}

module _ (py : Python) (ids : ℕ → ℕ) (workflow_id : ℕ) (me : User) (db : Db) (now : ℕ) (by : String)
    (context : Fields) (acts : List Act) where
  -- Whoever takes a decision may take it on each of the steps.
  abbrev pub MayDecide : List StepIn → Type 0
  MayDecide steps =
      All
        (λ (a : Act).
          All (λ (row : WorkflowStep). refusal py a.user row ≡ none)
            (create_steps ids workflow_id 0 steps))
        acts

  -- The creation succeeds, and so do the start of a request, whose notification the message queue
  -- takes, and the decisions; and the request has then been approved and completed.
  abbrev pub Completes : WorkflowIn → Type 0
  Completes input =
      (made : Catalog) × (r : Instance) × (r' : Instance) × (create_workflow_as py ids workflow_id
          input me db
        ≡ (record db { catalog = made }, 200))
      × (start_workflow made now true workflow_id by context ≡ done r)
      × (process_all py made acts r ≡ done r')
      × (r'.status ≡ completed)
      × IsDecidedAs approved r'

  -- The user is an administrator, and the database takes a workflow of this name and these steps.
  abbrev pub IsAccepted : String → List StepIn → Type 0
  IsAccepted name steps =
      (check_role py me "admin" ≡ true)
      × (any (is_named name) db.catalog.workflows ≡ false)
      × (has_references db.catalog steps ≡ true)

  created-Completes :
      (name : String) (steps : List StepIn) (transitions : List TransitionIn)
      → IsAccepted name steps
      → ((i j : ℕ) → ids i ≡ ids j → i ≡ j)
      → All (λ (t : StepTransition). (i : ℕ) → t.from_step_id ≢ ids i) db.catalog.transitions
      → IsNewWorkflow workflow_id db.catalog
      → IsNumberedFrom 0 steps
      → 1 ≤ length steps
      → transitions ≡ chain_in 0 (length steps)
      → MayDecide steps
      → AllApprove acts
      → length acts ≡ length steps
      → Completes (record { name = name; steps = steps; transitions = transitions })
  created-Completes name [] ts ok inj old new n some_steps e may all size = absurd (omega arith)
  created-Completes name (s ∷ steps) ts (admin, free, known) inj old new n some_steps e may all
        size =
      let input : WorkflowIn = record {
        name = name;
        steps = s ∷ steps;
        transitions = chain_in 0 (suc (length steps));
      } in
      let taken : create_workflow ids workflow_id input db.catalog
          ≡ some (add_workflow ids workflow_id input db.catalog) =
        unfold create_workflow in rw (free, known) refl in
      let created_now : create_workflow_as py ids workflow_id input me db
          ≡ (record db { catalog = add_workflow ids workflow_id input db.catalog }, 200) =
        unfold create_workflow_as in rw (admin, taken) refl in
      let (r, r', started, ran, h) =
        approvals_complete py ids workflow_id name s steps db.catalog now by context acts taken inj
          old new n may all (omega arith) in
      let over : stage_after (suc (length steps)) (length acts) ≡ ended_approved = ground arith in
      let (o, decided) =
        subst (Represents (create_steps ids workflow_id 0 (s ∷ steps)) r') over h in
      subst (λ us. Completes (record { name = name; steps = s ∷ steps; transitions = us })) (sym e)
        (
          add_workflow ids workflow_id input db.catalog,
          r,
          r',
          created_now,
          started,
          ran,
          o.0,
          decided,
        )

  -- A submission by the wizard, in whichever way the page came to it, that the schemas take,
  -- sent by an administrator, under a name that no workflow has and with roles and permissions that
  -- there are. Then the endpoint creates a workflow of it under new identifiers; a request for it is
  -- started, if the message queue takes its notification; and once users who may decide on its steps
  -- have approved it as often as the page has steps, each of which succeeds, it is completed
  -- and was approved.
  pub submission-Completes :
      (pyd : Pydantic) (host : Host) (d : Draw) {s : State}
      → ((n : ℕ) → pyd.to_int (num n) ≡ some n)
      → Reaches host s
      → s.mode ≡ wizard
      → Offers (view host s) submit
      → is_name pyd 255 (some (str s.name)) ≡ true
      → All (IsSendable pyd) s.workflow_steps
      → ((i j : ℕ) → ids i ≡ ids j → i ≡ j)
      → All (λ (t : StepTransition). (i : ℕ) → t.from_step_id ≢ ids i) db.catalog.transitions
      → IsNewWorkflow workflow_id db.catalog
      → IsAccepted s.name (map step_in_of s.workflow_steps)
      → MayDecide (map step_in_of s.workflow_steps)
      → AllApprove acts
      → length acts ≡ length s.workflow_steps
      → (p : Payload) × (input : WorkflowIn) × ((update host d submit s).1 ≡ post_workflow p ∷ [])
        × (read_workflow pyd p ≡ some input)
        × Completes input
  submission-Completes pyd host d {s} ints reached m o name sendable inj old new accepted may all
        size =
      let (p, input, posted, read, steps, n, some_steps, transitions, same) =
        submit-accepted pyd ints host d reached m o name sendable in
      (
        p,
        input,
        posted,
        read,
        created-Completes input.name input.steps input.transitions (rw (same, steps) accepted) inj
            old new n some_steps transitions (subst MayDecide (sym steps) may) all
            (size ∙ sym (ap length steps ∙ length-map step_in_of s.workflow_steps)),
      )
