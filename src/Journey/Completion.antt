-- ===== src/Journey/Completion.antt =====
-- From the creation of a workflow to the end of its requests.
use workflow_automation_plat.Common.{
  subst, ℕ, suc, ◌+◌, ◌≡◌, ◌≢◌, ◌≤◌, ◌<◌, refl, ap, ◌∙◌, arith, String, true, false, none, some,
  List, [], ◌∷◌, ltb, if◌then◌else◌, All, find, find-append, length, ◌==◌, ==_iff, ◌&&◌,
}
use workflow_automation_plat.Js.{Fields}
use workflow_automation_plat.Lifecycle.{created, in_progress, is_valid_transition}
use workflow_automation_plat.Engine.Conditions.{Python}
use workflow_automation_plat.Engine.Process.{
  Catalog, Workflow, WorkflowStep, StepTransition, Instance, done, start_workflow, start_found,
  start_step, is_first_of, change_status, new_instance, log_action, enter,
}
use workflow_automation_plat.Engine.Step.{refusal}
use workflow_automation_plat.Creation.{StepIn, create_steps, create_workflow, add_workflow}
use workflow_automation_plat.Creation.Rows.{IsNumberedFrom, create_steps-length}
use workflow_automation_plat.Creation.Chain.{
  chain_in, add_workflow-chain, create_workflow-add_workflow,
}
use workflow_automation_plat.Journey.{
  Stage, at_step, ended_approved, approval, advance_all, Act, decisions, process_all,
}
use workflow_automation_plat.Journey.Refinement.{
  Follows, Represents, entered-Represents, logged-Represents, process_all-Represents,
}

abbrev pub AllApprove : List Act → Type 0
AllApprove acts = All (λ (a : Act). a.decision ≡ approval) acts

-- Where `j` approvals lead.
abbrev pub stage_after : ℕ → ℕ → Stage
stage_after n j = if ltb j n then at_step j else ended_approved

advance_all-approvals :
    (n k : ℕ) (acts : List Act)
    → AllApprove acts
    → k + length acts ≤ n
    → k < n
    → advance_all n (decisions acts) (at_step k) ≡ some (stage_after n (k + length acts))
unfolding advance_all
advance_all-approvals n k [] h e l = ground arith
advance_all-approvals n k (a ∷ []) (p, h) e l = rw p (ground arith)
advance_all-approvals n k (a ∷ b ∷ acts) (p, h) e l =
    let more : ltb (suc k) n ≡ true = ground arith in
    rw (p, more)
      (advance_all-approvals n (suc k) (b ∷ acts) h (omega arith) (omega arith)
        ∙ ap (λ j. some (stage_after n j)) (omega arith))

-- The identifier of the workflow is new.
abbrev pub IsNewWorkflow : ℕ → Catalog → Type 0
IsNewWorkflow id catalog =
    All (λ (w : Workflow). w.id ≢ id) catalog.workflows
    × All (λ (s : WorkflowStep). s.workflow_id ≢ id) catalog.steps

no_workflow :
    (id : ℕ) (ws : List Workflow)
    → All (λ (w : Workflow). w.id ≢ id) ws
    → All (λ (w : Workflow). ((w.id == id) && w.is_active) ≡ false) ws
no_workflow id [] h = tt
no_workflow id (w ∷ ws) (n, h) = (ground (arith, ==_iff w.id id), no_workflow id ws h)

no_step :
    (id : ℕ) (ss : List WorkflowStep)
    → All (λ (s : WorkflowStep). s.workflow_id ≢ id) ss
    → All (λ (s : WorkflowStep). is_first_of id s ≡ false) ss
no_step id [] h = tt
no_step id (s ∷ ss) (n, h) = (ground (arith, ==_iff s.workflow_id id), no_step id ss h)

-- The request in progress before its first step, and as `start_workflow` leaves it.
abbrev pub opened : ℕ → String → Fields → Instance
opened workflow_id by context = record {
  workflow_id = workflow_id;
  requester_id = by;
  request_data = context;
  status = in_progress;
  current_step_id = none;
  completed_at = none;
  steps = [];
  history = record { from_status = created; to_status = in_progress; changed_by = by } ∷ [];
  audit = [];
}

abbrev pub begun : ℕ → ℕ → String → Fields → WorkflowStep → Instance
begun now workflow_id by context row =
    log_action "WORKFLOW_STARTED" by (enter now row (opened workflow_id by context))

start_workflow_lem :
    (catalog : Catalog) (now workflow_id : ℕ) (by : String) (context : Fields) (w : Workflow)
    (row : WorkflowStep)
    → find (λ (v : Workflow). (v.id == workflow_id) && v.is_active) catalog.workflows ≡ some w
    → find (is_first_of workflow_id) catalog.steps ≡ some row
    → start_workflow catalog now true workflow_id by context
      ≡ done (begun now workflow_id by context row)
unfolding start_workflow start_found start_step change_status new_instance is_valid_transition
start_workflow_lem catalog now workflow_id by context w row e f =
    rw e (ap (start_step now true by (opened workflow_id by context)) f)

module _ (py : Python) (ids : ℕ → ℕ) (workflow_id : ℕ) (name : String) (s : StepIn)
    (steps : List StepIn) (catalog : Catalog) where
  abbrev pub rows : List WorkflowStep
  rows = create_steps ids workflow_id 0 (s ∷ steps)

  abbrev pub after : Catalog
  after =
      add_workflow ids workflow_id
        (record { name = name; steps = s ∷ steps; transitions = chain_in 0 (suc (length steps)) })
        catalog

  abbrev pub first_row : WorkflowStep
  first_row = record {
    id = ids 0;
    workflow_id = workflow_id;
    step_order = s.step_order;
    sla_hours = s.sla_hours;
    required_role_id = s.required_role_id;
    required_permission_id = s.required_permission_id;
  }

  workflow_found :
      IsNewWorkflow workflow_id catalog
      → find (λ (v : Workflow). (v.id == workflow_id) && v.is_active) after.workflows
        ≡ some (record { id = workflow_id; name = name; is_active = true })
  unfolding add_workflow
  workflow_found (no_w, _) =
      find-append _ catalog.workflows (_ ∷ []) (no_workflow workflow_id catalog.workflows no_w)
      ∙ ground (arith, ==_iff workflow_id workflow_id)

  step_found :
      IsNewWorkflow workflow_id catalog
      → s.step_order ≡ 1
      → find (is_first_of workflow_id) after.steps ≡ some first_row
  unfolding add_workflow create_steps
  step_found (_, no_s) e =
      find-append _ catalog.steps rows (no_step workflow_id catalog.steps no_s)
      ∙ ground (arith, ==_iff workflow_id workflow_id, ==_iff s.step_order 1)

  pub begun-Represents :
      (now : ℕ) (by : String) (context : Fields)
      → Represents rows (begun now workflow_id by context first_row) (at_step 0)
  unfolding create_steps
  begun-Represents now by context =
      let r = opened workflow_id by context in
      logged-Represents py after rows "WORKFLOW_STARTED" by (enter now first_row r) (at_step 0)
        (entered-Represents py after rows now 0 first_row r refl refl tt)

  pub after-Follows :
      ((i j : ℕ) → ids i ≡ ids j → i ≡ j)
      → All (λ (t : StepTransition). (i : ℕ) → t.from_step_id ≢ ids i) catalog.transitions
      → IsNumberedFrom 0 (s ∷ steps)
      → Follows py after rows
  after-Follows inj old n context k row e =
      add_workflow-chain py ids workflow_id name (s ∷ steps) catalog context k row inj old n e

  added_complete :
      (now : ℕ) (by : String) (context : Fields) (acts : List Act)
      → ((i j : ℕ) → ids i ≡ ids j → i ≡ j)
      → All (λ (t : StepTransition). (i : ℕ) → t.from_step_id ≢ ids i) catalog.transitions
      → IsNewWorkflow workflow_id catalog
      → IsNumberedFrom 0 (s ∷ steps)
      → All (λ (a : Act). All (λ (row : WorkflowStep). refusal py a.user row ≡ none) rows) acts
      → AllApprove acts
      → length acts ≤ suc (length steps)
      → (r : Instance) × (r' : Instance) × (start_workflow after now true workflow_id by context
          ≡ done r)
        × (process_all py after acts r ≡ done r')
        × Represents rows r' (stage_after (suc (length steps)) (length acts))
  added_complete now by context acts inj old new n may all few =
      let r = begun now workflow_id by context first_row in
      let size : length rows ≡ suc (length steps) =
        create_steps-length ids workflow_id 0 (s ∷ steps) in
      let spec : advance_all (length rows) (decisions acts) (at_step 0)
          ≡ some (stage_after (suc (length steps)) (length acts)) =
        rw size (
          advance_all-approvals (suc (length steps)) 0 acts all (omega arith) (omega arith)
          ∙ ap (λ j. some (stage_after (suc (length steps)) j)) (omega arith)) in
      let (r', ran, h) =
        process_all-Represents py after rows acts r (at_step 0)
          (stage_after (suc (length steps)) (length acts)) (after-Follows inj old n) may
          (begun-Represents now by context) spec in
      (
        r,
        r',
        start_workflow_lem after now workflow_id by context
            (record { id = workflow_id; name = name; is_active = true }) first_row
            (workflow_found new) (step_found new (n.0 ∙ omega arith)),
        ran,
        h,
      )

  -- A workflow is created from steps that are numbered from one and from the chain of their orders,
  -- under new and distinct identifiers, and the database takes it; a request for it is started, whose
  -- notification the message queue takes; and users who may decide on each of its steps approve it
  -- some number of times, at most as often as it has steps. Then the start and every approval
  -- succeed, and the request stands at the step of that index, or, if there were as many
  -- approvals as steps, is completed as an approved one.
  pub approvals_complete :
      {made : Catalog} (now : ℕ) (by : String) (context : Fields) (acts : List Act)
      → create_workflow ids workflow_id
          (record { name = name; steps = s ∷ steps; transitions = chain_in 0 (suc (length steps)) })
          catalog
        ≡ some made
      → ((i j : ℕ) → ids i ≡ ids j → i ≡ j)
      → All (λ (t : StepTransition). (i : ℕ) → t.from_step_id ≢ ids i) catalog.transitions
      → IsNewWorkflow workflow_id catalog
      → IsNumberedFrom 0 (s ∷ steps)
      → All (λ (a : Act). All (λ (row : WorkflowStep). refusal py a.user row ≡ none) rows) acts
      → AllApprove acts
      → length acts ≤ suc (length steps)
      → (r : Instance) × (r' : Instance) × (start_workflow made now true workflow_id by context
          ≡ done r)
        × (process_all py made acts r ≡ done r')
        × Represents rows r' (stage_after (suc (length steps)) (length acts))
  approvals_complete {made} now by context acts e inj old new n may all few =
      subst
        (λ c.
          (r : Instance) × (r' : Instance) × (start_workflow c now true workflow_id by context
            ≡ done r)
          × (process_all py c acts r ≡ done r')
          × Represents rows r' (stage_after (suc (length steps)) (length acts)))
        (create_workflow-add_workflow ids workflow_id
          (record { name = name; steps = s ∷ steps; transitions = chain_in 0 (suc (length steps)) })
          catalog e)
        (added_complete now by context acts inj old new n may all few)
