-- ===== src/Constructor/Submitting.antt =====
-- What the page has posted and the server has not answered.
use workflow_automation_plat.Common.{
  ℕ, suc, ◌+◌, ◌≡◌, ◌≤◌, ◌⊎◌, inl, inr, refl, sym, ◌∙◌, arith, String, true, false, Option, none,
  some, List, [], ◌∷◌,
}
use mathlib.Core.Bool.{false≢true}
use workflow_automation_plat.Js.{Host, Thrown, Result, ok, threw}
use workflow_automation_plat.Ui.{Offers}
use workflow_automation_plat.Constructor.Nodes.{Role, Permission}
use workflow_automation_plat.Constructor.Page.{
  State, Msg, Draw, Effect, initial, update, metadata_loaded, submit_answered, submit_failed,
  submit_payload, next_step, payload_of, submit, continue, set_mode, set_json_source, set_name,
  set_description, insert_role, add_node, remove_node, edit_node, back, alert, get_metadata,
  post_workflow, push,
}
use workflow_automation_plat.Constructor.Payload.{Payload}
use workflow_automation_plat.Constructor.View.{view}
use workflow_automation_plat.Constructor.Controls.{Offers-IsAllowed}

-- How many workflows are posted.
abbrev pub posts : List Effect → ℕ
posts [] = 0
posts (post_workflow p ∷ es) = suc (posts es)
posts (alert a ∷ es) = posts es
posts (get_metadata ∷ es) = posts es
posts (push p ∷ es) = posts es

-- The page, with the number of posted workflows that the server has not answered. The user works a
-- control, the metadata arrive, or a submission is answered.
pub data Submits (host : Host) : State → ℕ → Type 0 where
  start : Submits host initial 0
  act :
      (d : Draw) (m : Msg) {s : State} {n : ℕ}
      → Submits host s n
      → Offers (view host s) m
      → Submits host (update host d m s).0 (posts (update host d m s).1 + n)
  loaded :
      (answer : Option (List Role × List Permission)) (template : String) {s : State} {n : ℕ}
      → Submits host s n
      → Submits host (metadata_loaded answer template s) n
  answered :
      (e : Option Thrown) {s : State} {n : ℕ}
      → Submits host s (suc n)
      → Submits host (submit_answered e s).0 n

-- The flag stands for the one submission that is not answered.
abbrev Follows : State → ℕ → Type 0
Follows s n = ((s.is_submitting ≡ true) × (n ≡ 1)) ⊎ ((s.is_submitting ≡ false) × (n ≡ 0))

payload-Follows :
    (r : Result Payload) (s : State) (n : ℕ)
    → s.is_submitting ≡ false
    → Follows s n
    → Follows (submit_payload r s).0 (posts (submit_payload r s).1 + n)
unfolding submit_payload submit_failed
payload-Follows r s n idle (inl (busy, e)) = absurd (false≢true (sym idle ∙ busy))
payload-Follows (ok p) s n idle (inr (_, e)) = inl (refl, omega arith)
payload-Follows (threw x) s n idle (inr (_, e)) = inr (refl, omega arith)

same-Follows : (s : State) (n : ℕ) → Follows s n → Follows s (0 + n)
same-Follows s n (inl (b, e)) = inl (b, omega arith)
same-Follows s n (inr (b, e)) = inr (b, omega arith)

continue-Follows :
    (s : State) (n : ℕ) → Follows s n → Follows (next_step s).0 (posts (next_step s).1 + n)
unfolding next_step
continue-Follows s n f = ground (arith, same-Follows s n f)

act-Follows :
    (host : Host) (d : Draw) (m : Msg) (s : State) (n : ℕ)
    → Offers (view host s) m
    → Follows s n
    → Follows (update host d m s).0 (posts (update host d m s).1 + n)
unfolding update
act-Follows host d submit s n o f =
    payload-Follows (payload_of host s s.mode) s n (Offers-IsAllowed host s submit o).0 f
act-Follows host d continue s n o f = continue-Follows s n f
act-Follows host d (set_mode m) s n o f = same-Follows s n f
act-Follows host d (set_json_source t) s n o f = same-Follows s n f
act-Follows host d (set_name t) s n o f = same-Follows s n f
act-Follows host d (set_description t) s n o f = same-Follows s n f
act-Follows host d (insert_role r) s n o f = same-Follows s n f
act-Follows host d add_node s n o f = same-Follows s n f
act-Follows host d (remove_node i) s n o f = same-Follows s n f
act-Follows host d (edit_node i e) s n o f = same-Follows s n f
act-Follows host d back s n o f = same-Follows s n f

loaded-Follows :
    (answer : Option (List Role × List Permission)) (template : String) (s : State) (n : ℕ)
    → Follows s n
    → Follows (metadata_loaded answer template s) n
unfolding metadata_loaded
loaded-Follows none template s n f = f
loaded-Follows (some a) template s n f = f

answered-Follows :
    (e : Option Thrown) (s : State) (n : ℕ) → Follows s (suc n) → Follows (submit_answered e s).0 n
unfolding submit_answered submit_failed
answered-Follows none s n (inl (_, h)) = inr (refl, omega arith)
answered-Follows (some e) s n (inl (_, h)) = inr (refl, omega arith)
answered-Follows e s n (inr (_, h)) = absurd (omega arith)

Submits-Follows : (host : Host) {s : State} {n : ℕ} → Submits host s n → Follows s n
Submits-Follows host start = inr (refl, refl)
Submits-Follows host (act d m {s} {n} r o) = act-Follows host d m s n o (Submits-Follows host r)
Submits-Follows host (loaded answer template {s} {n} r) =
    loaded-Follows answer template s n (Submits-Follows host r)
Submits-Follows host (answered e {s} {n} r) = answered-Follows e s n (Submits-Follows host r)

-- In every state that the page reaches at most one posted workflow is not answered, and a submission
-- is offered, by the wizard or for the JSON text, only while there is none.
pub submit-Alone :
    (host : Host) {s : State} {n : ℕ}
    → Submits host s n
    → (n ≤ 1) × (Offers (view host s) submit → n ≡ 0)
submit-Alone host {s} {n} r = elim (Submits-Follows host r) [
  | inl (busy, e) ↦
      (omega arith, λ o. absurd (false≢true (sym (Offers-IsAllowed host s submit o).0 ∙ busy)))
  | inr (_, e) ↦ (omega arith, λ o. e)
]
