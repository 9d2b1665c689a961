-- ===== src/Server/Invariant.antt =====
-- What holds of every request in the database, whatever the endpoints and the monitor do to it.
use workflow_automation_plat.Common.{
  String, List, Option, none, some, ℕ, ◌≡◌, refl, sym, subst, String, Bool, Option, [], inl, inr,
  Bool-cases,
}
use workflow_automation_plat.Js.{Fields}
use workflow_automation_plat.Engine.Conditions.{Python}
use workflow_automation_plat.Engine.Process.{User}
use workflow_automation_plat.Engine.Step.{}
use workflow_automation_plat.Engine.Invariant.{}
use workflow_automation_plat.Engine.Waiting.{}
use workflow_automation_plat.Creation.{WorkflowIn}
use workflow_automation_plat.Server.Store.{
  Db, get_request, start_request, process_request, decide_request,
}
use workflow_automation_plat.Server.Sla.{scan_for_breaches}
use workflow_automation_plat.Engine.Process.{Catalog}
use workflow_automation_plat.Creation.{create_workflow}
use workflow_automation_plat.Rbac.{check_role}
use workflow_automation_plat.Server.Protocols.{created, create_workflow_as, delete_workflow_as}
use workflow_automation_plat.Server.Deletion.{delete_workflow_as_lem}
use workflow_automation_plat.Server.Kept.{
  AllKept, get_request-IsKept, start-IsKept, process-IsKept, processed-AllKept, started-AllKept,
  decided-AllKept, decide-IsKept, scanned-AllKept,
}

-- What can happen to the database: workflows are created and deleted, requests are
-- started and decided on by either endpoint, and the monitor scans.
pub data Happens (py : Python) (db : Db) : Db → Type 1 where
  workflow_created :
      (ids : ℕ → ℕ) (workflow_id : ℕ) (input : WorkflowIn) (user : User)
      → Happens py db (create_workflow_as py ids workflow_id input user db).0
  workflow_deleted :
      (workflow_id : ℕ) (user : User) → Happens py db (delete_workflow_as py workflow_id user db).0
  started :
      (id now : ℕ) (notified : Bool) (user : User) (workflow_id : ℕ) (context : Fields)
      → Happens py db (start_request id now notified user workflow_id context db).0
  processed :
      (now : ℕ) (user : User) (outcome : String) (context : Fields) (id : ℕ)
      → Happens py db (process_request py now user outcome context id db).0
  decided :
      (now : ℕ) (user : User) (action comment : Option String) (id : ℕ)
      → Happens py db (decide_request py now user action comment id db).0
  scanned : (delivered : ℕ → Bool) (now : ℕ) → Happens py db (scan_for_breaches delivered now db).0

-- Nothing but the tables of the roles and the permissions, which no endpoint changes.
abbrev pub empty_db : List String → List String → Db
empty_db roles permissions = record {
  catalog = record {
    workflows = [];
    steps = [];
    transitions = [];
    roles = roles;
    permissions = permissions;
  };
  requests = [];
}

pub data Reaches (py : Python) : Db → Type 1 where
  start : (roles permissions : List String) → Reaches py (empty_db roles permissions)
  next : {a b : Db} → Reaches py a → Happens py a b → Reaches py b

created-requests : (db : Db) (o : Option Catalog) → (created db o).0.requests ≡ db.requests
created-requests db none = refl
created-requests db (some catalog) = refl

create_workflow_as-requests :
    (py : Python) (ids : ℕ → ℕ) (workflow_id : ℕ) (input : WorkflowIn) (user : User) (db : Db)
    → (create_workflow_as py ids workflow_id input user db).0.requests ≡ db.requests
unfolding create_workflow_as
create_workflow_as-requests py ids workflow_id input user db =
    elim (Bool-cases (check_role py user "admin")) [
      | inl e ↦ rw e (created-requests db (create_workflow ids workflow_id input db.catalog))
      | inr e ↦ rw e refl
    ]

Happens-AllKept :
    (py : Python) {a b : Db} → Happens py a b → AllKept a.requests → AllKept b.requests
unfolding start_request process_request decide_request
Happens-AllKept py {a} (workflow_created ids w input user) h =
    subst AllKept (sym (create_workflow_as-requests py ids w input user a)) h
Happens-AllKept py {a} (workflow_deleted w user) h =
    subst AllKept (sym (delete_workflow_as_lem py w user a).0) h
Happens-AllKept py {a} (started id now notified user w context) h =
    started-AllKept a id now _ h (λ i e. start-IsKept a.catalog now notified w user.id context e)
Happens-AllKept py {a} (processed now user outcome context id) h =
    processed-AllKept a id _ h (λ i e.
      process-IsKept py a.catalog now user outcome context (get_request id a.requests)
        (λ r f. get_request-IsKept id a.requests h f) e)
Happens-AllKept py {a} (decided now user action comment id) h = decided-AllKept a id _ h (λ i e.
    decide-IsKept py a.catalog now user action comment (get_request id a.requests)
      (λ r f. get_request-IsKept id a.requests h f) e)
Happens-AllKept py {a} (scanned delivered now) h = scanned-AllKept delivered now a h

-- In every state of the database that the endpoints and the monitor lead to, each request is in
-- progress with exactly one open step, its current one, or completed with none; its history leads
-- from CREATED to its status by valid transitions; and its open step is PENDING.
pub Reaches-AllKept : (py : Python) {db : Db} → Reaches py db → AllKept db.requests
Reaches-AllKept py (start roles permissions) = tt
Reaches-AllKept py (next r h) = Happens-AllKept py h (Reaches-AllKept py r)
