-- ===== src/Lifecycle/Runs.antt =====
-- Runs of the state machine.
use workflow_automation_plat.Common.{
  ◌≡◌, ◌⊎◌, ◌↔◌, refl, sym, arith, Bool, true, false, List, [], ◌∷◌, IsIn, inl, inr,
}
use mathlib.Core.Bool.{false≢true}
use workflow_automation_plat.Lifecycle.{
  RequestStatus, created, in_progress, approved, rejected, completed, escalated,
  is_valid_transition, is_terminal_state,
}

-- The statuses `ss` can follow `a` one after the other, each by a valid transition, up to `b`.
abbrev pub IsRun : RequestStatus → List RequestStatus → RequestStatus → Type 0
IsRun a [] b = a ≡ b
IsRun a (s ∷ ss) b = (is_valid_transition a s ≡ true) × IsRun s ss b

-- Before a decision.
abbrev pub is_open : RequestStatus → Bool
is_open created = true
is_open in_progress = true
is_open escalated = true
is_open _ = false

abbrev IsDecided : List RequestStatus → Type 0
IsDecided ss = IsIn approved ss ⊎ IsIn rejected ss

IsDecided-cons : (s : RequestStatus) (ss : List RequestStatus) → IsDecided ss → IsDecided (s ∷ ss)
IsDecided-cons s ss (inl h) = inl (inr h)
IsDecided-cons s ss (inr h) = inr (inr h)

-- An open status is followed by an open one, or by a decision.
after_open :
    (a s : RequestStatus)
    → is_open a ≡ true
    → is_valid_transition a s ≡ true
    → (is_open s ≡ true) ⊎ ((s ≡ approved) ⊎ (s ≡ rejected))
unfolding is_valid_transition
after_open a created o v = inl refl
after_open a in_progress o v = inl refl
after_open a escalated o v = inl refl
after_open a approved o v = inr (inl refl)
after_open a rejected o v = inr (inr refl)
after_open created completed o v = absurd (false≢true v)
after_open in_progress completed o v = absurd (false≢true v)
after_open escalated completed o v = absurd (false≢true v)
after_open approved completed o v = absurd (false≢true o)
after_open rejected completed o v = absurd (false≢true o)
after_open completed completed o v = absurd (false≢true o)

-- Every run of valid transitions from a status before a decision to COMPLETED goes through APPROVED
-- or REJECTED.
pub IsRun-decided :
    (a : RequestStatus) (ss : List RequestStatus)
    → is_open a ≡ true
    → IsRun a ss completed
    → IsIn approved ss ⊎ IsIn rejected ss
IsRun-decided a [] o e = absurd (false≢true (rw e at o))
IsRun-decided a (s ∷ ss) o (v, h) = elim (after_open a s o v) [
  | inl k ↦ IsDecided-cons s ss (IsRun-decided s ss k h)
  | inr (inl e) ↦ inl (inl (sym e))
  | inr (inr e) ↦ inr (inl (sym e))
]

-- A status has no status to follow it exactly if it is COMPLETED.
pub completed_iff : (s : RequestStatus) → (is_terminal_state s ≡ true) ↔ (s ≡ completed)
unfolding is_terminal_state
completed_iff completed = (λ h. refl, λ e. refl)
completed_iff s = ground arith
