-- ===== src/Server/Store.antt =====
-- The database as the endpoints use it, and the endpoints that change a request. An endpoint that
-- raises does not commit, so that nothing changes.
use workflow_automation_plat.Common.{
  ℕ, String, Bool, Option, none, some, List, [], ◌∷◌, ◌++◌, ◌==◌, if◌then◌else◌, find,
}
use workflow_automation_plat.Js.{Fields}
use workflow_automation_plat.Engine.Conditions.{Python}
use workflow_automation_plat.Engine.Process.{
  Catalog, User, Instance, EngineError, role_missing, permission_missing, invalid_transition,
  Outcome, done, raised, start_workflow,
}
use workflow_automation_plat.Engine.Step.{process_step, make_decision, Response, responded, refused}

-- A row of the requests with what belongs to it.
pub record RequestRow : Type 0 where
  pub id : ℕ
  pub created_at : ℕ
  pub state : Instance

pub record Db : Type 0 where
  pub catalog : Catalog
  pub requests : List RequestRow

-- An answer: the request, or the status of the error.
pub data Reply : Type 0 where
  answered : RequestRow → Reply
  failed : ℕ → Reply

-- The handlers of app/core/errors.py.
abbrev pub status_of : EngineError → ℕ
status_of role_missing = 403
status_of permission_missing = 403
status_of invalid_transition = 400
status_of _ = 500

unfoldable pub get_request : ℕ → List RequestRow → Option RequestRow
get_request id rows = find (λ (r : RequestRow). r.id == id) rows

abbrev pub state_of : Option RequestRow → Option Instance
state_of none = none
state_of (some r) = some r.state

-- The first row of the identifier, with another state.
unfoldable pub set_request : ℕ → Instance → List RequestRow → List RequestRow
set_request id i [] = []
set_request id i (r ∷ rows) =
    if r.id == id then record r { state = i } ∷ rows else r ∷ set_request id i rows

abbrev pub reply_to : Option RequestRow → Instance → Reply
reply_to none i = failed 500
reply_to (some r) i = answered (record r { state = i })

-- `db.commit()` with the request as a call left it, or not.
unfoldable pub commit_started : Db → ℕ → ℕ → Outcome → Db × Reply
commit_started db id now (raised e) = (db, failed (status_of e))
commit_started db id now (done i) =
    let row : RequestRow = record { id = id; created_at = now; state = i } in
    (record db { requests = db.requests ++ row ∷ [] }, answered row)

unfoldable pub commit_processed : Db → ℕ → Outcome → Db × Reply
unfolding set_request get_request
commit_processed db id (raised e) = (db, failed (status_of e))
commit_processed db id (done i) =
    (record db { requests = set_request id i db.requests }, reply_to (get_request id db.requests) i)

-- `start_workflow` of requests.py, for a request with a new identifier.
unfoldable pub start_request : ℕ → ℕ → Bool → User → ℕ → Fields → Db → Db × Reply
unfolding commit_started
start_request id now notified user workflow_id data_fields db =
    commit_started db id now
      (start_workflow db.catalog now notified workflow_id user.id data_fields)

-- `process_request_step`.
unfoldable pub process_request : Python → ℕ → User → String → Fields → ℕ → Db → Db × Reply
unfolding commit_processed get_request
process_request py now user outcome context id db =
    commit_processed db id
      (process_step py db.catalog now user outcome context (state_of (get_request id db.requests)))

-- `make_decision` with its commit.
unfoldable pub commit_decided : Db → ℕ → Response → Db × Reply
unfolding set_request get_request
commit_decided db id (refused n) = (db, failed n)
commit_decided db id (responded i) =
    (record db { requests = set_request id i db.requests }, reply_to (get_request id db.requests) i)

unfoldable pub decide_request :
    Python → ℕ → User → Option String → Option String → ℕ → Db → Db × Reply
unfolding commit_decided get_request
decide_request py now user action comment id db =
    commit_decided db id
      (make_decision py db.catalog now user action comment (state_of (get_request id db.requests)))
