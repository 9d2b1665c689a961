-- ===== src/Lib.antt =====
-- The workflow automation platform: the pages of its frontend (frontend/src), in which users
-- define workflows, start requests and decide on their steps, and the engine (app/services) that
-- takes the requests through the steps. The pages post to the engine's endpoints; what the
-- constructor posts is what the engine reads as steps and transitions.
--
-- Parts
--   Lifecycle    app/services/state_machine.py: the statuses of a request; Runs is proofs.
--   Engine       app/services/workflow_engine.py: Conditions is `ConditionEvaluator`, Process the
--                rows of a request with `start_workflow`, Step `process_step` with `_resolve_next`
--                and `_finalize`, and `make_decision` of app/api/v1/endpoints/workflow_instances.py;
--                Progress, Invariant, Waiting and Decision are proofs, Samples examples.
--   Creation     app/services/workflow_service.py: `create_workflow`, whose rows the engine reads,
--                and in Schema what app/schemas/workflow.py accepts of a posted payload; Rows,
--                Chain and Admission are proofs, the last from the constructor to the service.
--   Journey      a request seen as a place in a chain of steps, which decisions move along;
--                Refinement and Completion say that the engine implements it, Delivery follows a
--                submission of the constructor to the end of a request.
--   Rbac         app/services/rbac.py; Access is proofs.
--   Accounts     app/api/v1/endpoints/login.py and users.py, app/api/deps.py and
--                app/core/security.py; Rows, Tokens, Joining and Changes are proofs.
--   Server       the database over all requests. Store is the endpoints that change a request, of
--                app/api/v1/endpoints/requests.py and workflow_instances.py, Listing those that
--                read, Sla app/services/sla_monitor.py, Protocols the endpoints of workflows.py
--                with `delete_workflow`. Invariant has the step relation of all of them. Kept,
--                Deletion, History, MyTasks, Races, Newest, Ledger, Stats and Monitor are proofs,
--                Samples examples.
--   Constructor  frontend/src/app/admin/workflows/create/page.tsx. Nodes holds the steps and
--                `generateDefaultTransitions`, Payload what `handleSubmit` builds, Page the state
--                and the handlers, View what the page renders; Controls, Numbering, Linear and
--                Reach and Submitting are proofs, and Samples is a run of the page.
--   Tasks        frontend/src/app/tasks/page.tsx; Flow is proofs.
--   Request      frontend/src/app/requests/[id]/page.tsx, also served as instances/[id].
--   Timeline     the order of steps that the tasks page and the request page show.
--   Inventory    frontend/src/app/workflows/page.tsx: Blueprint is the work on the JSON text, Page
--                the state and the handlers, View the page; Editing is proofs.
--   Dashboard    frontend/src/app/dashboard/page.tsx; Starting is proofs.
--   Requests     frontend/src/app/requests/page.tsx.
--   Protocols    frontend/src/app/admin/workflows/page.tsx.
--   AdminConsole frontend/src/app/admin/page.tsx, with app/api/v1/endpoints/admin.py in Counts.
--   Layout       frontend/src/components/layout/DashboardLayout.tsx, the frame of every page.
--   Api          Client is frontend/src/lib/api.ts, Login is frontend/src/app/page.tsx.
--   Session      the token over the logins, logouts and refused requests of all of them.
--   Js, Ui       JavaScript values with their exceptions, and the controls of a page.
--   Common       shared names and lemmas.
--
-- How the code is modelled. A page is a record of its `useState` values. `update` sends the message
-- of a control through the page's handler and gives the next state with the effects in order:
-- requests, alerts and navigation. A handler that awaits the server is two functions: what it does
-- up to the request, and what it does with the answer, so that answers may arrive in any order.
-- `view` lists the texts and the controls of a page in document order, with the condition under
-- which each is shown or disabled; `Ui.Offers` says that a page lets its user send a message, and
-- the step relations (`Happens`, `Reaches`) let nothing else happen but that and the answers. All
-- functions are structurally recursive, so nothing runs on fuel.
--
-- Assumptions. What the browser computes is the parameter `Host`: lower case, `JSON.parse` and
-- `JSON.stringify`, slices, replacement and `Number`. Words for dates are parameters of the views.
-- `Math.random().toString(36)` gives an identifier that no step of the page has yet. The server is
-- any answer. Numbers are natural numbers: the pages copy, compare and count them.
--
-- Not modelled: class names, icons, animations and initials; a button that shows only an icon has
-- the icon's name as its label. frontend/src/app/notifications/page.tsx, a fixed list of texts. The
-- Card and Portal wrappers.
--
-- On the server, what Python computes is the parameter `Python`: floats, comparisons, `in`, `split`,
-- `upper` and `lower`. `Pydantic` is the length of a text, the reading of an integer and the test of a
-- UUID; `Security` is the signing and reading of tokens and the hashing of passwords, whose laws are
-- hypotheses where a theorem needs them. The rows of one request are one record, queries give rows in
-- the order in which they were added, and the tasks of a user by request; identifiers and times are
-- natural numbers, new identifiers are arguments, and a call that raises leaves nothing behind. What
-- the ORM does on a deletion is written out from the declared relationships: it deletes what cascades
-- and first empties the other references, which the columns refuse. The monitor's notifications
-- succeed or fail by the argument `delivered`. Of what the database checks, the model has the values
-- of a step's status, the unique name of a workflow, and that a step's role and permission exist; the
-- tables of roles and permissions do not change. It has neither the lengths of the text columns nor
-- the range of the integer columns and of dates: a deadline is any natural number. Whether the
-- message queue takes the notification of a new request is the argument `notified`. Log lines, the
-- text of audit rows and the mails are left out. Every call is one step: two calls do not interleave.
-- Not modelled on the server: the endpoints that only read users, roles, permissions,
-- workflows and audit rows, a failure to write an audit row, and the start-up of the service.
pub mod Common
pub mod Js
pub mod Ui
pub mod Accounts
pub mod Api
pub mod Layout
pub mod Lifecycle
pub mod Engine
pub mod Creation
pub mod Journey
pub mod Rbac
pub mod Server
pub mod AdminConsole
pub mod Session
pub mod Timeline
pub mod Tasks
pub mod Protocols
pub mod Inventory
pub mod Request
pub mod Requests
pub mod Dashboard
pub mod Constructor
