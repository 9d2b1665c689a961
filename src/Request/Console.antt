-- ===== src/Request/Console.antt =====
-- What the console can post.
use workflow_automation_plat.Common.{
  suc, sym, ◌∙◌, ◌+◌, ℕ, ◌≡◌, ◌⊎◌, refl, arith, String, true, false, Option, none, some, List, [],
  ◌∷◌, ◌++◌, inl, inr, All, All-append, ◌&◌, Bool-cases, str_eq,
}
use mathlib.Core.Bool.{false≢true}
use workflow_automation_plat.Js.{Host}
use workflow_automation_plat.Ui.{
  Widget, spinner, text, Offers, Permits, Permits-Offers, All-when, All-each,
}
use workflow_automation_plat.Timeline.{StepInfo, sort}
use workflow_automation_plat.Request.{
  RequestInfo, State, Msg, choose, set_note, process, current_step, initial, update, request_loaded,
  process_answered, refreshed, post_process, get_request, Effect,
}
use workflow_automation_plat.Request.View.{
  view, view_request, view_steps, view_step, view_completion, view_console, view_pressure,
  view_intel, view_choice,
}

abbrev pub IsOutcome : String → Type 0
IsOutcome o = (o ≡ "APPROVED") ⊎ (o ≡ "REJECTED")

-- A pending step of the request that the page shows.
abbrev pub HasPending : State → Type 0
HasPending s =
    (r : RequestInfo) × (s.request ≡ some r) × ((step : StepInfo) × (current_step r ≡ some step))

abbrev pub IsAllowed : State → Msg → Type 0
IsAllowed s (choose o) = IsOutcome o
IsAllowed s (set_note t) = Unit
IsAllowed s process = (s.processing ≡ false) × HasPending s

module _ (host : Host) (format : ℕ → String) (now : ℕ) (s : State) where
  abbrev Good : List (Widget Msg) → Type 0
  Good ws = All (Permits (IsAllowed s)) ws

  step-Good : (i : ℕ) (x : StepInfo) → Good (view_step format i x)
  unfolding view_step
  step-Good i x = ground arith

  pressure-Good : (d : Option ℕ) → Good (view_pressure now d)
  unfolding view_pressure
  pressure-Good none = tt
  pressure-Good (some d) = tt & tt & tt

  choice-Good : HasPending s → Good (view_choice s)
  unfolding view_choice
  choice-Good h =
      (λ _. inl refl)
      & (λ _. inr refl)
      & tt
      & (λ t. tt)
      & ground (arith, All-when (IsAllowed s) s.processing (spinner ∷ []) (λ _. tt & tt))

  console-Good :
      (o : Option StepInfo)
      → ((step : StepInfo) → o ≡ some step → HasPending s)
      → Good (view_console s now o)
  unfolding view_console
  console-Good none h = tt & tt
  console-Good (some step) h =
      tt
      & tt
      & All-append (Permits (IsAllowed s)) (view_pressure now step.deadline) (view_choice s)
          (pressure-Good step.deadline) (choice-Good (h step refl))

  completion-Good : (r : RequestInfo) → Good (view_completion r)
  unfolding view_completion
  completion-Good r =
      All-when (IsAllowed s) (str_eq r.status "COMPLETED") (_ ∷ _ ∷ []) (λ _. tt & tt & tt)

  intel-Good : (r : RequestInfo) → Good (view_intel host r)
  unfolding view_intel
  intel-Good r = tt & tt & tt & tt & tt & tt & tt & tt

  request-Good : (r : RequestInfo) → s.request ≡ some r → Good (view_request host format now s r)
  unfolding view_request
  request-Good r e =
      let P = Permits (IsAllowed s) in
      let console = view_console s now (current_step r) in
      let below = text "Decision Console" ∷ console ++ view_intel host r in
      tt
      & tt
      & tt
      & tt
      & tt
      & tt
      & All-append P (view_steps format r) (view_completion r ++ below)
          (All-each (IsAllowed s) (view_step format) 0 (sort r.steps) step-Good)
          (All-append P (view_completion r) below (completion-Good r) (
            tt
            & All-append P console (view_intel host r)
                (console-Good (current_step r) (λ step p. (r, e, (step, p)))) (intel-Good r)))

  page-Good :
      (o : Option RequestInfo)
      → s.request ≡ o
      → (m : Msg) → s.loading ≡ false
      → Offers (view host format now s) m
      → IsAllowed s m
  unfolding view
  page-Good none e m l o = ground arith
  page-Good (some r) e m l o =
      Permits-Offers (IsAllowed s) (view_request host format now s r) m (request-Good r e)
        (rw (l, e) at o)

  pub Offers-IsAllowed : (m : Msg) → Offers (view host format now s) m → IsAllowed s m
  unfolding view
  Offers-IsAllowed m o = elim (Bool-cases s.loading) [
    | inl e ↦ ground arith
    | inr e ↦ page-Good s.request refl m e o
  ]

-- How many decisions are posted.
abbrev pub posts : List Effect → ℕ
posts [] = 0
posts (post_process o n ∷ es) = suc (posts es)
posts (get_request ∷ es) = posts es

-- The page, with the number of decisions that the server has not answered, and of those that it has
-- accepted but for which the page still asks for the request again. The user works a control, at
-- some time, or an answer arrives.
pub data Reaches (host : Host) (format : ℕ → String) : State → ℕ → ℕ → Type 0 where
  start : Reaches host format initial 0 0
  act :
      (now : ℕ) (m : Msg) {s : State} {p f : ℕ}
      → Reaches host format s p f
      → Offers (view host format now s) m
      → Reaches host format (update m s).0 (posts (update m s).1 + p) f
  loaded :
      (r : Option RequestInfo) {s : State} {p f : ℕ}
      → Reaches host format s p f
      → Reaches host format (request_loaded r s) p f
  accepted :
      {s : State} {p f : ℕ}
      → Reaches host format s (suc p) f
      → Reaches host format (process_answered true s).0 p (suc f)
  failed :
      {s : State} {p f : ℕ}
      → Reaches host format s (suc p) f
      → Reaches host format (process_answered false s).0 p f
  fetched :
      (r : Option RequestInfo) {s : State} {p f : ℕ}
      → Reaches host format s p (suc f)
      → Reaches host format (refreshed r s) p f

-- The flag stands for the one decision that is not settled.
abbrev Follows : State → ℕ → ℕ → Type 0
Follows s p f = ((s.processing ≡ true) × (p + f ≡ 1)) ⊎ ((s.processing ≡ false) × (p + f ≡ 0))

-- The flag stands so, and the outcome is one of the two.
abbrev IsSettled : State → ℕ → ℕ → Type 0
IsSettled s p f = IsOutcome s.outcome × Follows s p f

same-Follows : (s : State) (p f : ℕ) → Follows s p f → Follows s (0 + p) f
same-Follows s p f (inl (b, e)) = inl (b, omega arith)
same-Follows s p f (inr (b, e)) = inr (b, omega arith)

act-IsSettled :
    (m : Msg) (s : State) (p f : ℕ)
    → IsAllowed s m
    → IsSettled s p f
    → IsSettled (update m s).0 (posts (update m s).1 + p) f
unfolding update
act-IsSettled (choose x) s p f a (o, h) = (a, same-Follows s p f h)
act-IsSettled (set_note t) s p f a (o, h) = (o, same-Follows s p f h)
act-IsSettled process s p f (idle, _) (o, inl (busy, e)) = absurd (false≢true (sym idle ∙ busy))
act-IsSettled process s p f a (o, inr (idle, e)) = (o, inl (refl, omega arith))

Reaches-IsSettled :
    (host : Host) (format : ℕ → String) {s : State} {p f : ℕ}
    → Reaches host format s p f
    → IsSettled s p f
unfolding request_loaded process_answered refreshed
Reaches-IsSettled host format start = (inl refl, inr (refl, refl))
Reaches-IsSettled host format (act now m {s} {p} {f} r o) =
    act-IsSettled m s p f (Offers-IsAllowed host format now s m o) (Reaches-IsSettled host format r)
Reaches-IsSettled host format (loaded none r) = Reaches-IsSettled host format r
Reaches-IsSettled host format (loaded (some i) r) = Reaches-IsSettled host format r
Reaches-IsSettled host format (accepted r) = ground (arith, Reaches-IsSettled host format r)
Reaches-IsSettled host format (failed r) = ground (arith, Reaches-IsSettled host format r)
Reaches-IsSettled host format (fetched none r) = ground (arith, Reaches-IsSettled host format r)
Reaches-IsSettled host format (fetched (some i) r) = ground (arith, Reaches-IsSettled host format r)

-- In every state that the page reaches, a decision can be submitted only while every earlier one
-- has been answered and, if it was accepted, the request fetched again, and while the shown request
-- has a pending step. What is posted is one decision, whose outcome is "APPROVED" or "REJECTED" and
-- whose note is the one of the page.
pub process_posts :
    (host : Host) (format : ℕ → String) (now : ℕ) {s : State} {p f : ℕ}
    → Reaches host format s p f
    → Offers (view host format now s) process
    → (p ≡ 0)
      × (f ≡ 0)
      × HasPending s
      × IsOutcome s.outcome
      × ((update process s).1 ≡ post_process s.outcome s.note ∷ [])
unfolding update
process_posts host format now {s} {p} {f} r o =
    let (idle, pending) = Offers-IsAllowed host format now s process o in
    let (outcome, h) = Reaches-IsSettled host format r in
    let none_left : p + f ≡ 0 = elim h [
      | inl (busy, e) ↦ absurd (false≢true (sym idle ∙ busy))
      | inr (_, e) ↦ e
    ] in
    (omega arith, omega arith, pending, outcome, refl)
