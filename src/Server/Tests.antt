-- ===== src/Server/Tests.antt =====
-- The theorems at a database with a workflow of two steps and one request.
use workflow_automation_plat.Common.{
  sym, if◌then◌else◌, keep, ◌⊎◌, List, ℕ, ◌+◌, ◌≡◌, ◌≢◌, ◌≤◌, ◌↔◌, refl, ap, arith, String, Bool,
  true, none, some, [], ◌∷◌, ◌&&◌, All, IsIn, inl, length, eq_iff,
}
use mathlib.Core.Bool.{false≢true}
use mathlib.Core.Option.{none-ne-some}
use workflow_automation_plat.Lifecycle.{approved}
use workflow_automation_plat.Engine.Conditions.{evaluate}
use workflow_automation_plat.Engine.Step.{
  process_current, if_permitted, complete_step, proceed, finalize, resolve_next, close_at,
}
use workflow_automation_plat.Creation.{add_workflow, create_workflow, create_transitions, step_at}
use workflow_automation_plat.Server.Store.{
  process_request, commit_processed, get_request, set_request,
}
use workflow_automation_plat.Server.Invariant.{processed}
use workflow_automation_plat.Server.History.{statuses, Reaches-decided}
use workflow_automation_plat.Js.{Fields, end}
use workflow_automation_plat.Ui.{Offers}
use workflow_automation_plat.Request.{initial, process, request_loaded}
use workflow_automation_plat.Request.View.{view}
use workflow_automation_plat.Constructor.Samples.{plain_host}
use workflow_automation_plat.Lifecycle.{RequestStatus, rejected, same_value, is_valid_transition}
use workflow_automation_plat.Engine.Process.{
  raised, status_refused, User, RequestStep, Instance, current_exec, done, raised, not_found,
  start_workflow, start_found, start_step, change_status, new_instance,
}
use workflow_automation_plat.Engine.Step.{process_step, refusal}
use workflow_automation_plat.Creation.{create_workflow, create_steps}
use workflow_automation_plat.Server.Store.{
  RequestRow, Db, get_request, start_request, commit_started,
}
use workflow_automation_plat.Server.Listing.{
  has_status, has_requester, read_requests, my_tasks, dashboard_stats, read_request, request_info,
}
use workflow_automation_plat.Server.Sla.{overdue_count, scan_for_breaches}
use workflow_automation_plat.Server.Kept.{AllKept}
use workflow_automation_plat.Server.Invariant.{empty_db, next, Reaches-AllKept}
use workflow_automation_plat.Server.MyTasks.{my_tasks-mem, my_tasks_granted}
use workflow_automation_plat.Server.Newest.{IsNewestFirst}
use workflow_automation_plat.Server.Ledger.{
  read_requests_lem, read_requests-passing, read_request-locked,
}
use workflow_automation_plat.Rbac.{check_role, has_role}
use workflow_automation_plat.Server.Protocols.{create_workflow_as, delete_workflow_as, get_workflow}
use workflow_automation_plat.Server.Deletion.{delete_workflow_as_lem}
use workflow_automation_plat.Server.Stats.{dashboard_stats_lem}
use workflow_automation_plat.Server.Monitor.{scan_for_breaches_lem}
use workflow_automation_plat.Engine.Samples.{plain_python, clerk}
use workflow_automation_plat.Engine.Process.{WorkflowStep, RequestStep}
use workflow_automation_plat.Creation.{create_steps}
use workflow_automation_plat.Engine.Progress.{decided}
use workflow_automation_plat.Engine.Step.{is_step_status}
use workflow_automation_plat.Journey.{ended_approved, process_all}
use workflow_automation_plat.Journey.Refinement.{Represents}
use workflow_automation_plat.Journey.Completion.{rows, after-Follows, begun-Represents}
use workflow_automation_plat.Server.Races.{both_approve, same_task_twice}
use workflow_automation_plat.Server.Samples.{
  ids, step_in, admin, created_db, started_db, started_db-Reaches, first_task, first_task-mem,
}

Reaches-AllKept_example : AllKept started_db.requests
Reaches-AllKept_example = Reaches-AllKept plain_python started_db-Reaches

my_tasks-mem_example :
    IsIn {A = ℕ × RequestStep} (7, first_task) (my_tasks plain_python clerk started_db.requests) ↔ (
      (row : RequestRow) × IsIn row started_db.requests
      × (row.id ≡ 7)
      × (current_exec row.state ≡ some first_task)
      × (refusal plain_python clerk first_task.step ≡ none))
my_tasks-mem_example = my_tasks-mem plain_python clerk 7 first_task started_db-Reaches

my_tasks_granted_example :
    (row : RequestRow) × IsIn row started_db.requests
    × (row.id ≡ 7)
    × (process_step plain_python started_db.catalog 200 clerk "APPROVED" end (some row.state) ≡ (
        if is_step_status "APPROVED"
        then done (
            decided plain_python started_db.catalog 200 clerk "APPROVED" end row.state
              first_task.step)
        else raised status_refused))
my_tasks_granted_example =
    my_tasks_granted plain_python clerk 7 first_task started_db.catalog 200 "APPROVED" end
      started_db-Reaches first_task-mem

read_requests_lem_example :
    let skip : ℕ = 0 in
    let rows =
      read_requests plain_python (λ s. some s) skip 100 (some "IN_PROGRESS") none started_db in
    (length rows ≤ 100)
    × IsNewestFirst rows
    × All
        (λ (r : RequestRow).
          IsIn r started_db.requests
          × ((has_status plain_python (some "IN_PROGRESS") r && has_requester (λ s. some s) none r)
              ≡ true))
        rows
    × (skip ≡ 0
        → length (
            keep
              (λ r.
                has_status plain_python (some "IN_PROGRESS") r
                && has_requester (λ s. some s) none r)
              started_db.requests)
          ≤ 100
        → (r : RequestRow) → IsIn r started_db.requests
        → (has_status plain_python (some "IN_PROGRESS") r && has_requester (λ s. some s) none r)
          ≡ true
        → IsIn r rows)
read_requests_lem_example =
    read_requests_lem plain_python (λ s. some s) 0 100 (some "IN_PROGRESS") none started_db

read_requests-passing_example :
    read_requests plain_python (λ s. some s) 0 100 (some "REJECTED") none started_db ≡ []
read_requests-passing_example =
    read_requests-passing plain_python (λ s. some s) 0 100 "REJECTED" none rejected
      started_db-Reaches (ground (arith, eq_iff "REJECTED" "")) refl
      (
        (λ e. false≢true (ap (λ s. same_value s RequestStatus.in_progress) e)),
        λ e. false≢true (ap (λ s. same_value s RequestStatus.completed) e),
      )

abbrev worded : ℕ → String
worded n = "7"

abbrev first_row : RequestRow
first_row = record {
  id = 7;
  created_at = 100;
  state = record (unfold new_instance in new_instance 2 "u1" end) {
    status = RequestStatus.in_progress;
    current_step_id = some 10;
    steps = first_task ∷ [];
  };
}

abbrev one_request : Db
one_request = record (empty_db [] []) { requests = first_row ∷ [] }

read_request-locked_example :
    ¬ Offers
      (view plain_host worded 200 (request_loaded (some (request_info worded first_row)) initial))
      process
read_request-locked_example =
    read_request-locked plain_host worded 200 worded 7 one_request (request_info worded first_row)
      initial (unfold read_request get_request in refl)

dashboard_stats_lem_example :
    let c = dashboard_stats started_db in
    (c.active + c.completed_count ≡ length started_db.requests) × (c.active ≤ c.pending)
dashboard_stats_lem_example = dashboard_stats_lem plain_python started_db-Reaches

scan_for_breaches_lem_example :
    let now : ℕ = 100000 in
    let after = scan_for_breaches (λ j. true) now started_db in
    (after.1 ≤ overdue_count now started_db.requests)
    × (((j : ℕ) → true ≡ true) → after.1 ≡ overdue_count now started_db.requests)
    × (after.1 ≡ 0 → after.0 ≡ started_db)
    × (after.1 ≢ 0
        → (overdue_count now after.0.requests ≡ 0)
          × ((again : ℕ → Bool) → scan_for_breaches again now after.0 ≡ (after.0, 0)))
scan_for_breaches_lem_example = scan_for_breaches_lem (λ j. true) 100000 started_db

delete_workflow_as_lem_example :
    let after = delete_workflow_as plain_python 2 admin created_db in
    (after.1 ≡ 204)
    × (get_workflow 2 after.0 ≡ none)
    × ((now : ℕ) (notified : Bool) (by : String) (context : Fields)
        → (start_workflow after.0.catalog now notified 2 by context ≡ raised not_found)
          × ((other : ℕ)
              → other ≢ 2
              → start_workflow after.0.catalog now notified other by context
                ≡ start_workflow created_db.catalog now notified other by context))
unfolding create_workflow_as check_role has_role create_workflow add_workflow create_steps
delete_workflow_as_lem_example =
    (delete_workflow_as_lem plain_python 2 admin created_db).2
      (refl, (λ e. none-ne-some _ (sym e)), refl)

-- The clerk rejects the request at its first step.
abbrev rejected_db : Db
rejected_db = (process_request plain_python 200 clerk "REJECTED" end 7 started_db).0

abbrev none_request : RequestRow
none_request = record {
  id = 0;
  created_at = 0;
  state = unfold new_instance in new_instance 0 "" end;
}

abbrev first_request : List RequestRow → RequestRow
first_request [] = none_request
first_request (r ∷ rest) = r

Reaches-decided_example :
    let history = (first_request rejected_db.requests).state.history in
    IsIn approved (statuses history) ⊎ IsIn rejected (statuses history)
unfolding start_request commit_started start_workflow start_found start_step change_status
    new_instance create_workflow_as check_role has_role create_workflow add_workflow create_steps
    create_transitions step_at is_valid_transition process_request commit_processed get_request
    set_request process_step process_current current_exec if_permitted refusal complete_step proceed
    finalize resolve_next close_at evaluate
Reaches-decided_example =
    Reaches-decided plain_python (first_request rejected_db.requests)
      (next started_db-Reaches (processed 200 clerk "REJECTED" end 7)) (inl refl) refl

abbrev two_rows : List WorkflowStep
two_rows =
    rows plain_python ids 2 "Leave" (step_in 1) (step_in 2 ∷ [])
      (empty_db ("clerk" ∷ []) []).catalog

abbrev started_row : RequestRow
started_row = first_request started_db.requests

clerk_may : All (λ (s : WorkflowStep). refusal plain_python clerk s ≡ none) two_rows
unfolding refusal create_steps
clerk_may = (refl, (refl, tt))

abbrev second_clerk : User
second_clerk = record clerk { id = "u9"; email = "second@example.com"; username = "second" }

second_clerk_may : All (λ (s : WorkflowStep). refusal plain_python second_clerk s ≡ none) two_rows
unfolding refusal create_steps
second_clerk_may = (refl, (refl, tt))

same_task_twice_example :
    let acts = both_approve plain_python clerk second_clerk 200 201 end in
    (x : RequestStep) × (r' : Instance) × IsIn {A = ℕ × RequestStep}
      (started_row.id, x)
      (my_tasks plain_python clerk started_db.requests)
    × IsIn {A = ℕ × RequestStep}
        (started_row.id, x)
        (my_tasks plain_python second_clerk started_db.requests)
    × (process_all plain_python started_db.catalog acts started_row.state ≡ done r')
    × Represents two_rows r' ended_approved
unfolding start_request commit_started start_workflow start_found start_step change_status
    new_instance create_workflow_as check_role has_role create_workflow add_workflow create_steps
    is_valid_transition
same_task_twice_example =
    same_task_twice plain_python clerk second_clerk 200 201 end started_row two_rows 0
      started_db-Reaches (inl refl)
      (after-Follows plain_python ids 2 "Leave" (step_in 1) (step_in 2 ∷ [])
        (empty_db ("clerk" ∷ []) []).catalog (λ i j e. omega arith) tt (refl, (refl, tt)))
      (begun-Represents plain_python ids 2 "Leave" (step_in 1) (step_in 2 ∷ [])
        (empty_db ("clerk" ∷ []) []).catalog 100 "u1" end)
      (omega arith) clerk_may second_clerk_may
