-- ===== src/Server/Ledger.antt =====
-- What the listing endpoints answer, and what the pages can make of it.
use workflow_automation_plat.Common.{
  subst, ℕ, ◌≡◌, ◌≢◌, ◌≤◌, refl, sym, ap, ◌∙◌, arith, String, Bool, true, false, Option, none, some,
  List, [], ◌∷◌, All, All-IsIn, All-from, IsIn, find, keep, keep-mem, take, length, inl, inr,
  str_eq, eq_iff, ◌&&◌,
}
use mathlib.Core.Bool.{false≢true}
use mathlib.Core.Option.{some-injective, none-ne-some}
use workflow_automation_plat.Js.{Host}
use workflow_automation_plat.Ui.{Offers}
use workflow_automation_plat.Timeline.{StepInfo}
use workflow_automation_plat.Request.{RequestInfo, State, process, request_loaded}
use workflow_automation_plat.Request.View.{view}
use workflow_automation_plat.Request.Console.{Offers-IsAllowed}
use workflow_automation_plat.Lifecycle.{RequestStatus, in_progress, completed, same_value}
use workflow_automation_plat.Engine.Conditions.{Python}
use workflow_automation_plat.Engine.Process.{Instance}
use workflow_automation_plat.Server.Store.{RequestRow, Db, get_request}
use workflow_automation_plat.Server.Listing.{
  status_named, has_status, has_requester, newest_first, drop, read_requests, request_info,
  read_request,
}
use workflow_automation_plat.Server.Kept.{IsKept}
use workflow_automation_plat.Server.Invariant.{Reaches, Reaches-AllKept}
use workflow_automation_plat.Server.Newest.{
  IsNewestFirst, newest_first-All, drop-All, take-All, newest_first-IsNewestFirst,
  drop-IsNewestFirst, take-IsNewestFirst, length-take, newest_first-IsIn, length-newest_first,
  take_whole,
}

keep-All :
    (p : RequestRow → Bool) (rows : List RequestRow)
    → All (λ r. IsIn r rows × (p r ≡ true)) (keep p rows)
keep-All p rows = All-from _ (keep p rows) (λ r h. (keep-mem p r rows).0 h)

-- The list has at most `limit` requests, the newest first, and each is a request of the database
-- that both filters let through, where a filter that is missing, empty or unknown lets all through.
-- If none is skipped and there are not more than `limit` such requests, it has all of them.
pub read_requests_lem :
    (py : Python) (as_uuid : String → Option String) (skip limit : ℕ)
    (status requester : Option String) (db : Db)
    → let rows = read_requests py as_uuid skip limit status requester db in
      (length rows ≤ limit)
      × IsNewestFirst rows
      × All
          (λ (r : RequestRow).
            IsIn r db.requests
            × ((has_status py status r && has_requester as_uuid requester r) ≡ true))
          rows
      × (skip ≡ 0
          → length
              (keep (λ r. has_status py status r && has_requester as_uuid requester r) db.requests)
            ≤ limit
          → (r : RequestRow) → IsIn r db.requests
          → (has_status py status r && has_requester as_uuid requester r) ≡ true
          → IsIn r rows)
unfolding read_requests
read_requests_lem py as_uuid skip limit status requester db =
    let test = λ (r : RequestRow). has_status py status r && has_requester as_uuid requester r in
    let kept = keep test db.requests in
    (
      length-take limit (drop skip (newest_first kept)),
      take-IsNewestFirst limit _ (drop-IsNewestFirst skip _ (newest_first-IsNewestFirst kept)),
      take-All _ limit _ (drop-All _ skip _ (newest_first-All _ kept (keep-All test db.requests))),
      λ e le r i p.
          let whole : take limit (newest_first kept) ≡ newest_first kept =
            take_whole limit (newest_first kept)
              (subst (λ n. n ≤ limit) (sym (length-newest_first kept)) le) in
          subst (λ n. IsIn r (take limit (drop n (newest_first kept)))) (sym e)
            (subst (IsIn r) (sym whole)
              (newest_first-IsIn r kept ((keep-mem test r db.requests).1 (i, p)))),
    )

-- The statuses in which a request never rests.
abbrev pub IsPassing : RequestStatus → Type 0
IsPassing st = (st ≢ in_progress) × (st ≢ completed)

All-imp :
    (P Q : RequestRow → Type 0) (rows : List RequestRow)
    → ((r : RequestRow) → P r → Q r)
    → All P rows
    → All Q rows
All-imp P Q [] f h = tt
All-imp P Q (r ∷ rows) f (p, h) = (f r p, All-imp P Q rows f h)

no_rows : (rows : List RequestRow) → All (λ r. ⊥) rows → rows ≡ []
no_rows [] h = refl
no_rows (r ∷ rows) (p, h) = absurd p

same_in_progress : (st : RequestStatus) → same_value in_progress st ≡ true → st ≡ in_progress
same_in_progress in_progress e = refl
same_in_progress st e = absurd (false≢true e)

same_completed : (st : RequestStatus) → same_value completed st ≡ true → st ≡ completed
same_completed completed e = refl
same_completed st e = absurd (false≢true e)

not_passing :
    (i : Instance) (st : RequestStatus)
    → IsKept i
    → IsPassing st
    → same_value i.status st ≡ true
    → ⊥
not_passing i st ((t, inl (s, _)), w) (n, m) e = n (same_in_progress st (rw s at e))
not_passing i st ((t, inr (s, _, _)), w) (n, m) e = m (same_completed st (rw s at e))

filtered :
    (py : Python) (s : String) (st : RequestStatus) (r : RequestRow) (b : Bool)
    → s ≢ ""
    → status_named (py.upper s) ≡ some st
    → (has_status py (some s) r && b) ≡ true
    → same_value r.state.status st ≡ true
filtered py s st r b n e h =
    let full : str_eq s "" ≡ false = ground (arith, eq_iff s "") in
    let k : (same_value r.state.status st && b) ≡ true = rw (full, e) at h in ground arith

-- Whatever the endpoints and the monitor did before, the filter by any status but IN_PROGRESS and
-- COMPLETED, such as the choices REJECTED and ESCALATED of the ledger page, gives no request.
pub read_requests-passing :
    (py : Python) (as_uuid : String → Option String) (skip limit : ℕ) (s : String)
    (requester : Option String) (st : RequestStatus) {db : Db}
    → Reaches py db
    → s ≢ ""
    → status_named (py.upper s) ≡ some st
    → IsPassing st
    → read_requests py as_uuid skip limit (some s) requester db ≡ []
read_requests-passing py as_uuid skip limit s requester st {db} reached n e p =
    let rows = read_requests py as_uuid skip limit (some s) requester db in
    no_rows rows (
      All-imp _ (λ r. ⊥) rows
        (λ r (i, h).
          not_passing r.state st
            (All-IsIn (λ (q : RequestRow). IsKept q.state) db.requests r
              (Reaches-AllKept py reached) i)
            p (filtered py s st r (has_requester as_uuid requester r) n e h))
        (read_requests_lem py as_uuid skip limit (some s) requester db).2)

answer-steps :
    (word : ℕ → String) (info : RequestInfo) (o : Option RequestRow)
    → (elim o as (λ _. Option RequestInfo) [ none ↦ none | some r ↦ some (request_info word r) ])
      ≡ some info
    → info.steps ≡ []
unfolding request_info
answer-steps word info none e = absurd (none-ne-some _ e)
answer-steps word info (some r) e = ap (λ (i : RequestInfo). i.steps) (sym (some-injective _ _ e))

-- Whatever request the endpoint answers, in whichever state of the page it arrives, the console of
-- the request page then offers no submission: the answer has no steps, whatever the request has.
pub read_request-locked :
    (host : Host) (format : ℕ → String) (now : ℕ) (word : ℕ → String) (id : ℕ) (db : Db)
    (info : RequestInfo) (s : State)
    → read_request word id db ≡ some info
    → ¬ Offers (view host format now (request_loaded (some info) s)) process
unfolding read_request request_info request_loaded
read_request-locked host format now word id db info s e h =
    let (_, (r, f, (step, c))) =
      Offers-IsAllowed host format now (request_loaded (some info) s) process h in
    let same : info ≡ r = some-injective _ _ f in
    let bare : r.steps ≡ [] =
      ap (λ (i : RequestInfo). i.steps) (sym same)
      ∙ answer-steps word info (get_request id db.requests) e in
    none-ne-some _ (sym (ap (find (λ (x : StepInfo). str_eq x.status "PENDING")) bare) ∙ c)
