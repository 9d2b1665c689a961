-- ===== src/Lifecycle.antt =====
-- app/services/state_machine.py with the statuses of app/db/models/request.py: which status a
-- request may take after which.
pub mod Runs
use workflow_automation_plat.Common.{
  ℕ, Bool, true, false, List, [], ◌∷◌, any, length, ◌==◌, if◌then◌else◌,
}

pub data RequestStatus : Type 0 where
  created in_progress approved rejected completed escalated : RequestStatus

-- `a.value == b.value`.
abbrev pub same_value : RequestStatus → RequestStatus → Bool
same_value created created = true
same_value in_progress in_progress = true
same_value approved approved = true
same_value rejected rejected = true
same_value completed completed = true
same_value escalated escalated = true
same_value _ _ = false

-- `STATE_TRANSITIONS`, and so `get_allowed_next_states`.
abbrev pub state_transitions : RequestStatus → List RequestStatus
state_transitions created = in_progress ∷ []
state_transitions in_progress = approved ∷ rejected ∷ escalated ∷ []
state_transitions approved = completed ∷ []
state_transitions rejected = completed ∷ []
state_transitions escalated = in_progress ∷ []
state_transitions completed = []

unfoldable pub is_valid_transition : RequestStatus → RequestStatus → Bool
is_valid_transition from to =
    if same_value from to then true else any (λ s. same_value to s) (state_transitions from)

unfoldable pub is_terminal_state : RequestStatus → Bool
is_terminal_state s = length (state_transitions s) == 0
