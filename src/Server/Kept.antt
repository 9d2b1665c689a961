-- ===== src/Server/Kept.antt =====
-- What holds of a request, and that each endpoint and the monitor keep it.
use workflow_automation_plat.Common.{
  ℕ, ◌≡◌, refl, sym, ap, subst, ◌∙◌, String, Bool, true, false, Option, none, some, List, [], ◌∷◌,
  map, All, All-append, inl, inr, Bool-cases, str_eq, ◌==◌, if◌then◌else◌,
}
use mathlib.Core.Bool.{false≢true}
use mathlib.Core.Option.{some-injective, none-ne-some}
use workflow_automation_plat.Js.{Fields, field, str, end}
use workflow_automation_plat.Engine.Conditions.{Python}
use workflow_automation_plat.Engine.Process.{
  status_refused, Catalog, User, RequestStep, Instance, Outcome, done, raised, EngineError,
  start_workflow, invalid_transition,
}
use workflow_automation_plat.Engine.Step.{
  process_step, make_decision, Response, responded, refused, respond, text_or_none,
}
use workflow_automation_plat.Engine.Progress.{IsClosed, HasOneOpen}
use workflow_automation_plat.Engine.Invariant.{
  IsConsistent, raised≢done, process_step-IsConsistent, start_found-IsConsistent,
}
use workflow_automation_plat.Engine.Waiting.{
  IsWaiting, AllWait, process_step-AllWait, start_workflow-AllWait,
}
use workflow_automation_plat.Server.Store.{
  RequestRow, Db, get_request, set_request, state_of, commit_started, commit_processed,
  commit_decided,
}
use workflow_automation_plat.Server.Sla.{
  overdue_count, notified_count, is_overdue, mark, mark_request, scan_for_breaches,
}

abbrev pub IsKept : Instance → Type 0
IsKept i = IsConsistent i × AllWait i

abbrev pub AllKept : List RequestRow → Type 0
AllKept rows = All (λ (r : RequestRow). IsKept r.state) rows

set_request-AllKept :
    (id : ℕ) (i : Instance) (rows : List RequestRow)
    → IsKept i
    → AllKept rows
    → AllKept (set_request id i rows)
unfolding set_request
set_request-AllKept id i [] k h = tt
set_request-AllKept id i (r ∷ rows) k (p, h) = elim (Bool-cases (r.id == id)) [
  | inl e ↦ rw e (k, h)
  | inr e ↦ rw e (p, set_request-AllKept id i rows k h)
]

pub get_request-IsKept :
    (id : ℕ) (rows : List RequestRow) {r : RequestRow}
    → AllKept rows
    → get_request id rows ≡ some r
    → IsKept r.state
unfolding get_request
get_request-IsKept id [] h e = absurd (none-ne-some _ e)
get_request-IsKept id (q ∷ rows) (p, h) e = elim (Bool-cases (q.id == id)) [
  | inl f ↦ subst (λ (x : RequestRow). IsKept x.state) (some-injective _ _ (rw f at e)) p
  | inr f ↦ get_request-IsKept id rows h (rw f at e)
]

pub start-IsKept :
    (catalog : Catalog) (now : ℕ) (notified : Bool) (workflow_id : ℕ) (by : String)
    (context : Fields) {i : Instance}
    → start_workflow catalog now notified workflow_id by context ≡ done i
    → IsKept i
unfolding start_workflow
start-IsKept catalog now notified workflow_id by context e = (
  start_found-IsConsistent catalog now notified workflow_id by context _ e,
  start_workflow-AllWait catalog now notified workflow_id by context e,
)

pub process-IsKept :
    (py : Python) (catalog : Catalog) (now : ℕ) (user : User) (outcome : String) (context : Fields)
    (o : Option RequestRow) {i : Instance}
    → ((r : RequestRow) → o ≡ some r → IsKept r.state)
    → process_step py catalog now user outcome context (state_of o) ≡ done i
    → IsKept i
unfolding process_step
process-IsKept py catalog now user outcome context none h e = absurd (raised≢done e)
process-IsKept py catalog now user outcome context (some r) h e =
    let (c, w) = h r refl in
    (
      process_step-IsConsistent py catalog now user outcome context r.state c e,
      process_step-AllWait py catalog now user outcome context r.state c w e,
    )

-- What the monitor does to a row does not open or close it, nor change its step or status.
mark_lem :
    (now : ℕ) (x : RequestStep)
    → ((mark now x).completed_at ≡ x.completed_at)
      × ((mark now x).step ≡ x.step)
      × ((mark now x).status ≡ x.status)
mark_lem now x = elim (Bool-cases (is_overdue now x)) [
  | inl e ↦ rw e (refl, refl, refl)
  | inr e ↦ rw e (refl, refl, refl)
]

mark-IsClosed : (now : ℕ) (xs : List RequestStep) → IsClosed xs → IsClosed (map (mark now) xs)
mark-IsClosed now [] h = tt
mark-IsClosed now (x ∷ xs) ((t, e), h) = ((t, (mark_lem now x).0 ∙ e), mark-IsClosed now xs h)

mark-HasOneOpen :
    (now id : ℕ) (xs : List RequestStep) → HasOneOpen id xs → HasOneOpen id (map (mark now) xs)
mark-HasOneOpen now id [] h = elim h [ ]
mark-HasOneOpen now id (x ∷ xs) (inl (e, f, c)) =
    let (a, b, _) = mark_lem now x in inl (a ∙ e, ap (λ s. s.id) b ∙ f, mark-IsClosed now xs c)
mark-HasOneOpen now id (x ∷ xs) (inr ((t, e), h)) =
    inr ((t, (mark_lem now x).0 ∙ e), mark-HasOneOpen now id xs h)

mark-AllWait :
    (now : ℕ) (xs : List RequestStep) → All IsWaiting xs → All IsWaiting (map (mark now) xs)
mark-AllWait now [] h = tt
mark-AllWait now (x ∷ xs) (p, h) =
    let (a, _, c) = mark_lem now x in (λ e. c ∙ p (sym a ∙ e), mark-AllWait now xs h)

mark_request-IsKept :
    (now : ℕ) (r : RequestRow) → IsKept r.state → IsKept (mark_request now r).state
mark_request-IsKept now r ((t, inl (s, (id, e, h))), w) = (
  (t, inl (s, (id, e, mark-HasOneOpen now id r.state.steps h))),
  mark-AllWait now r.state.steps w,
)
mark_request-IsKept now r ((t, inr (s, e, c)), w) =
    ((t, inr (s, e, mark-IsClosed now r.state.steps c)), mark-AllWait now r.state.steps w)

marked-AllKept :
    (now : ℕ) (rows : List RequestRow) → AllKept rows → AllKept (map (mark_request now) rows)
marked-AllKept now [] h = tt
marked-AllKept now (r ∷ rows) (p, h) = (mark_request-IsKept now r p, marked-AllKept now rows h)

-- Whatever the engine answers, the requests stay as they should be.
pub processed-AllKept :
    (db : Db) (id : ℕ) (o : Outcome)
    → AllKept db.requests
    → ((i : Instance) → o ≡ done i → IsKept i)
    → AllKept (commit_processed db id o).0.requests
unfolding commit_processed
processed-AllKept db id (raised e) h k = h
processed-AllKept db id (done i) h k = set_request-AllKept id i db.requests (k i refl) h

pub started-AllKept :
    (db : Db) (id now : ℕ) (o : Outcome)
    → AllKept db.requests
    → ((i : Instance) → o ≡ done i → IsKept i)
    → AllKept (commit_started db id now o).0.requests
unfolding commit_started
started-AllKept db id now (raised e) h k = h
started-AllKept db id now (done i) h k =
    All-append (λ (r : RequestRow). IsKept r.state) db.requests (_ ∷ []) h (k i refl, tt)

pub decided-AllKept :
    (db : Db) (id : ℕ) (o : Response)
    → AllKept db.requests
    → ((i : Instance) → o ≡ responded i → IsKept i)
    → AllKept (commit_decided db id o).0.requests
unfolding commit_decided
decided-AllKept db id (refused n) h k = h
decided-AllKept db id (responded i) h k = set_request-AllKept id i db.requests (k i refl) h

abbrev is_responded : Response → Bool
is_responded (responded r) = true
is_responded (refused n) = false

respond-raised : (x : EngineError) → is_responded (respond (raised x)) ≡ false
respond-raised invalid_transition = refl
respond-raised status_refused = refl
respond-raised x = refl

responded_done : (o : Outcome) (i : Instance) → respond o ≡ responded i → o ≡ done i
responded_done (done r) i e = ap (λ s. elim s [ responded j ↦ done j | refused n ↦ done r ]) e
responded_done (raised x) i e = absurd (false≢true (sym (respond-raised x) ∙ ap is_responded e))

pub decide-IsKept :
    (py : Python) (catalog : Catalog) (now : ℕ) (user : User) (action comment : Option String)
    (o : Option RequestRow) {i : Instance}
    → ((r : RequestRow) → o ≡ some r → IsKept r.state)
    → make_decision py catalog now user action comment (state_of o) ≡ responded i
    → IsKept i
unfolding make_decision
decide-IsKept py catalog now user none comment o h e = absurd (false≢true (ap is_responded e))
decide-IsKept py catalog now user (some action) comment o {i} h e =
    elim (Bool-cases (str_eq action "")) [
      | inl f ↦ absurd (false≢true (ap is_responded (rw f at e)))
      | inr f ↦
          process-IsKept py catalog now user (py.upper action)
            (field "comment" (text_or_none comment) (field "action" (str action) end)) o h
            (responded_done _ i (rw f at e))
    ]

pub scanned-AllKept :
    (delivered : ℕ → Bool) (now : ℕ) (db : Db)
    → AllKept db.requests
    → AllKept (scan_for_breaches delivered now db).0.requests
unfolding scan_for_breaches
scanned-AllKept delivered now db h =
    go (notified_count delivered 0 (overdue_count now db.requests) == 0)
  where
    go :
        (b : Bool)
        → AllKept
            (if b then db else record db { requests = map (mark_request now) db.requests }).requests
    go true = h
    go false = marked-AllKept now db.requests h
