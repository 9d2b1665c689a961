-- ===== src/Dashboard/Starting.antt =====
-- Starting a request from the dialog, over everything that happens on the page.
use workflow_automation_plat.Common.{
  ℕ, suc, ◌+◌, ◌≡◌, ◌≢◌, ◌⊎◌, inl, inr, refl, sym, ◌∙◌, arith, String, Bool, true, false, Option,
  none, some, List, [], ◌∷◌, ◌++◌, ◌&◌, All, All-append, length, ◌==◌, Bool-cases, concat,
  if◌then◌else◌, eq_iff, str_eq, ◌||◌,
}
use mathlib.Core.Bool.{false≢true}
use workflow_automation_plat.Js.{Host}
use workflow_automation_plat.Ui.{
  Widget, text, number, when, Offers, Permits, Permits-Offers, All-when, All-each,
}
use workflow_automation_plat.Dashboard.{
  State, Msg, Effect, Loaded, RecentRequest, AuditLog, initial, update, handle_start_request,
  start_request, open_modal, close_modal, pulse, set_workflow, set_title, set_description,
  set_priority, timer, post_request, alert, push, data_loaded, pulse_ended, start_answered,
}
use workflow_automation_plat.Dashboard.View.{
  view, view_header, stat_cards, view_stats, view_request, view_requests, view_audit, view_modal,
}

abbrev IsAllowed : State → Msg → Type 0
IsAllowed s start_request = s.is_starting_request ≡ false
IsAllowed s _ = Unit

module _ (host : Host) (label : String → String) (ago : ℕ → String) (s : State) where
  abbrev Good : List (Widget Msg) → Type 0
  Good ws = All (Permits (IsAllowed s)) ws

  Good-append : (v w : List (Widget Msg)) → Good v → Good w → Good (v ++ w)
  Good-append v w = All-append (Permits (IsAllowed s)) v w

  header-Good : Good (view_header s.pulsing)
  unfolding view_header
  header-Good = ground arith

  abbrev stat_card : ℕ → String × ℕ → List (Widget Msg)
  stat_card i c = text c.0 ∷ number c.1 ∷ when s.pulsing (text "Live" ∷ [])

  stats-Good : Good (view_stats s)
  unfolding view_stats
  stats-Good =
      All-each (IsAllowed s) stat_card 0 (stat_cards s.stats)
        (λ i c. tt & tt & All-when (IsAllowed s) s.pulsing (text "Live" ∷ []) (λ _. tt & tt))

  Good-if : (b : Bool) (v w : List (Widget Msg)) → Good v → Good w → Good (if b then v else w)
  Good-if true v w h k = h
  Good-if false v w h k = k

  requests-Good : (rs : List RecentRequest) → Good (view_requests host ago rs)
  unfolding view_requests view_request
  requests-Good rs =
      tt
      & tt
      & Good-if (length rs == 0) (text "Awaiting telemetry stream initialization..." ∷ []) _
          (tt & tt) (All-each (IsAllowed s) (view_request host ago) 0 rs (λ i q. tt & tt & tt & tt))

  abbrev audit_entry : ℕ → AuditLog → List (Widget Msg)
  audit_entry i l = text (label l.action) ∷ text (concat (ago l.timestamp) " ago") ∷ []

  audit-Good : (logs : List AuditLog) → Good (view_audit label ago logs)
  unfolding view_audit
  audit-Good logs =
      tt
      & Good-if (length logs == 0) (text "Encrypted Buffer Verified" ∷ []) _ (tt & tt)
          (All-each (IsAllowed s) audit_entry 0 logs (λ i q. tt & tt & tt))

  modal-Good : Good (view_modal s)
  unfolding view_modal
  modal-Good = ground arith

  Offers-IsAllowed : (m : Msg) → Offers (view host label ago s) m → IsAllowed s m
  unfolding view
  Offers-IsAllowed m o =
      let audit = view_audit label ago s.audit_logs in
      let modal = when s.request_modal_open (view_modal s) in
      let requests = view_requests host ago s.recent_requests in
      let below = requests ++ (audit ++ modal) in
      let page = view_header s.pulsing ++ (view_stats s ++ below) in
      let page-Good : Good page =
        Good-append (view_header s.pulsing) (view_stats s ++ below) header-Good (
          Good-append (view_stats s) below stats-Good (
            Good-append requests (audit ++ modal) (requests-Good s.recent_requests) (
              Good-append audit modal (audit-Good s.audit_logs)
                (All-when (IsAllowed s) s.request_modal_open (view_modal s) (λ _. modal-Good))))) in
      elim (Bool-cases s.loading) [
        | inl e ↦ ground arith
        | inr e ↦ Permits-Offers (IsAllowed s) page m page-Good (rw e at o)
      ]

-- How many requests are posted.
abbrev pub posts : List Effect → ℕ
posts [] = 0
posts (post_request r ∷ es) = suc (posts es)
posts (timer n ∷ es) = posts es
posts (alert t ∷ es) = posts es
posts (push t ∷ es) = posts es

-- The page, with the number of posted requests that the server has not answered, and of those that
-- it has started. The user works a control, the figures arrive, a pulse ends, or the server answers.
pub data Reaches (host : Host) (label : String → String) (ago : ℕ → String)
    : State → ℕ → ℕ → Type 0 where
  start : Reaches host label ago initial 0 0
  act :
      (m : Msg) {s : State} {p f : ℕ}
      → Reaches host label ago s p f
      → Offers (view host label ago s) m
      → Reaches host label ago (update m s).0 (posts (update m s).1 + p) f
  loaded :
      (answer : Option Loaded) {s : State} {p f : ℕ}
      → Reaches host label ago s p f
      → Reaches host label ago (data_loaded answer s) p f
  rested :
      {s : State} {p f : ℕ}
      → Reaches host label ago s p f
      → Reaches host label ago (pulse_ended s) p f
  started :
      (id : String) {s : State} {p f : ℕ}
      → Reaches host label ago s (suc p) f
      → Reaches host label ago (start_answered (some id) s).0 p (suc f)
  failed :
      {s : State} {p f : ℕ}
      → Reaches host label ago s (suc p) f
      → Reaches host label ago (start_answered none s).0 p f

-- The flag stands for the one request that is posted and did not fail.
abbrev Follows : State → ℕ → ℕ → Type 0
Follows s p f =
    ((s.is_starting_request ≡ true) × (p + f ≡ 1)) ⊎ ((s.is_starting_request ≡ false) × (p + f ≡ 0))

same-Follows : (s : State) (p f : ℕ) → Follows s p f → Follows s (0 + p) f
same-Follows s p f (inl (b, e)) = inl (b, omega arith)
same-Follows s p f (inr (b, e)) = inr (b, omega arith)

start-Follows :
    (s : State) (p f : ℕ)
    → s.is_starting_request ≡ false
    → Follows s p f
    → Follows (handle_start_request s).0 (posts (handle_start_request s).1 + p) f
unfolding handle_start_request
start-Follows s p f idle (inl (busy, e)) = absurd (false≢true (sym idle ∙ busy))
start-Follows s p f idle (inr (_, e)) =
    elim (Bool-cases
      (str_eq s.new_request_data.workflow_id "" || str_eq s.new_request_data.title "")) [
        | inl b ↦ rw b (inr (idle, omega arith))
        | inr b ↦ rw b (inl (refl, omega arith))
      ]

act-Follows :
    (m : Msg) (s : State) (p f : ℕ)
    → IsAllowed s m
    → Follows s p f
    → Follows (update m s).0 (posts (update m s).1 + p) f
unfolding update
act-Follows start_request s p f a h = start-Follows s p f a h
act-Follows open_modal s p f a h = same-Follows s p f h
act-Follows close_modal s p f a h = same-Follows s p f h
act-Follows pulse s p f a h = same-Follows s p f h
act-Follows (set_workflow v) s p f a h = same-Follows s p f h
act-Follows (set_title v) s p f a h = same-Follows s p f h
act-Follows (set_description v) s p f a h = same-Follows s p f h
act-Follows (set_priority v) s p f a h = same-Follows s p f h

loaded-Follows :
    (answer : Option Loaded) (s : State) (p f : ℕ)
    → Follows s p f
    → Follows (data_loaded answer s) p f
unfolding data_loaded
loaded-Follows none s p f h = h
loaded-Follows (some l) s p f h = h

Reaches-Follows :
    (host : Host) (label : String → String) (ago : ℕ → String) {s : State} {p f : ℕ}
    → Reaches host label ago s p f
    → Follows s p f
unfolding start_answered pulse_ended
Reaches-Follows host label ago start = inr (refl, refl)
Reaches-Follows host label ago (act m {s} {p} {f} r o) =
    act-Follows m s p f (Offers-IsAllowed host label ago s m o) (Reaches-Follows host label ago r)
Reaches-Follows host label ago (loaded answer {s} {p} {f} r) =
    loaded-Follows answer s p f (Reaches-Follows host label ago r)
Reaches-Follows host label ago (rested r) = Reaches-Follows host label ago r
Reaches-Follows host label ago (started id r) = ground (arith, Reaches-Follows host label ago r)
Reaches-Follows host label ago (failed r) = ground (arith, Reaches-Follows host label ago r)

-- In every state that the page reaches, a request can be started only while every earlier one has
-- failed, if there was any: none is unanswered and none was started. What is then posted is one
-- request with the fields of the dialog if a workflow is chosen and the title is not empty, and
-- otherwise nothing.
pub start_request-posts :
    (host : Host) (label : String → String) (ago : ℕ → String) {s : State} {p f : ℕ}
    → Reaches host label ago s p f
    → Offers (view host label ago s) start_request
    → (p ≡ 0)
      × (f ≡ 0)
      × ((s.new_request_data.workflow_id ≢ "")
          → (s.new_request_data.title ≢ "")
          → (update start_request s).1 ≡ post_request s.new_request_data ∷ [])
      × ((s.new_request_data.workflow_id ≡ "") ⊎ (s.new_request_data.title ≡ "")
          → posts (update start_request s).1 ≡ 0)
unfolding update handle_start_request
start_request-posts host label ago {s} {p} {f} r o =
    let idle = Offers-IsAllowed host label ago s start_request o in
    let none_left : p + f ≡ 0 = elim (Reaches-Follows host label ago r) [
      | inl (busy, e) ↦ absurd (false≢true (sym idle ∙ busy))
      | inr (_, e) ↦ e
    ] in
    let chosen = eq_iff s.new_request_data.workflow_id "" in
    let titled = eq_iff s.new_request_data.title "" in
    (
      omega arith,
      omega arith,
      (λ w t. ground (arith, chosen, titled)),
      λ h. ground (arith, chosen, titled),
    )
