-- ===== src/AdminConsole.antt =====
-- frontend/src/app/admin/page.tsx: the console of the administrators, which shows the counts of
-- app/api/v1/endpoints/admin.py.
pub mod Counts
mod Tests
use workflow_automation_plat.Common.{
  ℕ, String, Bool, true, false, Option, none, some, List, [], ◌∷◌, ◌++◌,
}
use workflow_automation_plat.Ui.{Widget, text, number, inert, button, each}

pub record Stats : Type 0 where
  pub users : ℕ
  pub workflows : ℕ
  pub requests : ℕ
  pub sla_breaches : ℕ

pub record State : Type 0 where
  pub stats : Option Stats
  pub loading : Bool

-- Both buttons lead to the constructor.
pub data Msg : Type 0 where
  create : Msg

pub data Effect : Type 0 where
  push : String → Effect

abbrev pub initial : State
initial = record { stats = none; loading = true }

-- The answer to `fetchStats`; a failure is only logged.
unfoldable pub stats_loaded : Option Stats → State → State
stats_loaded (some st) s = record s { stats = some st; loading = false }
stats_loaded none s = record s { loading = false }

unfoldable pub update : Msg → State → State × List Effect
update create s = (s, push "/admin/workflows/create" ∷ [])

-- `stats?.key || 0`.
abbrev pub value_or_zero : (Stats → ℕ) → Option Stats → ℕ
value_or_zero key none = 0
value_or_zero key (some st) = key st

-- `metrics`.
unfoldable pub metrics : State → List (String × ℕ)
metrics s =
    ("Active Identities", value_or_zero (λ st. st.users) s.stats)
    ∷ ("Execution Protocols", value_or_zero (λ st. st.workflows) s.stats)
    ∷ ("Live Instances", value_or_zero (λ st. st.requests) s.stats)
    ∷ ("SLA Divergences", value_or_zero (λ st. st.sla_breaches) s.stats)
    ∷ []

unfoldable pub view_metric : ℕ → String × ℕ → List (Widget Msg)
view_metric i m = text "Live Telemetry" ∷ number m.1 ∷ text m.0 ∷ []

unfoldable pub view : State → List (Widget Msg)
unfolding metrics view_metric
view s =
    text "Command Center"
      ∷ text "Admin Console"
      ∷ text "System-wide orchestration metrics and protocol definition terminal."
      ∷ button "Define New Protocol" false create
      ∷ each 0 view_metric (metrics s)
    ++ text "Security & Governance"
      ∷ text "Node Authority & Access Controls"
      ∷ inert "ArrowRight"
      ∷ text "Schema Management"
      ∷ text "Update and refine core workflow data structures."
      ∷ text "System Audit"
      ∷ text "Review historical execution logs and diverging tasks."
      ∷ text "Initialization Sequence"
      ∷ text
          "Admins can override standard protocol constraints. Define custom execution pathways for emergency infrastructure adjustments."
      ∷ button "Access Constructor" false create
      ∷ []
