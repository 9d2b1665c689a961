-- ===== src/Server/Sla.antt =====
-- `SLAMonitor`. `delivered` says which notifications the message queue takes, by the place of the
-- step among those that the query gives.
use workflow_automation_plat.Common.{
  ℕ, zero, suc, ◌+◌, Bool, true, not, List, [], ◌∷◌, ◌++◌, map, ltb, str_eq, ◌==◌, if◌then◌else◌,
  ◌&&◌, ◌||◌, keep, length,
}
use workflow_automation_plat.Engine.Process.{RequestStep}
use workflow_automation_plat.Server.Store.{RequestRow, Db}

-- The query's conditions.
abbrev pub is_overdue : ℕ → RequestStep → Bool
is_overdue now x =
    (str_eq x.status "PENDING" || str_eq x.status "IN_PROGRESS")
    && ltb x.deadline now
    && not x.is_sla_breached

-- `_escalate_step` on the row itself, and on what it logs; it marks the row before it notifies.
abbrev pub escalate : ℕ → RequestStep → RequestStep
escalate now x = record x {
  is_sla_breached = true;
  escalations = x.escalations ++ record { escalation_level = 1; escalated_at = now } ∷ [];
}

abbrev pub mark : ℕ → RequestStep → RequestStep
mark now x = if is_overdue now x then escalate now x else x

abbrev pub mark_request : ℕ → RequestRow → RequestRow
mark_request now r = record r {
  state = record r.state {
    steps = map (mark now) r.state.steps;
    audit =
        r.state.audit
        ++ map (λ x. ("SLA_BREACH_DETECTED", "")) (keep (is_overdue now) r.state.steps);
  };
}

unfoldable pub overdue_count : ℕ → List RequestRow → ℕ
overdue_count now [] = 0
overdue_count now (r ∷ rows) = length (keep (is_overdue now) r.state.steps) + overdue_count now rows

-- The loop's `breach_count`: of the `n` steps from the place `i` on, those that are notified.
unfoldable pub notified_count : (ℕ → Bool) → ℕ → ℕ → ℕ
notified_count delivered i zero = 0
notified_count delivered i (suc n) =
    (if delivered i then 1 else 0) + notified_count delivered (suc i) n

-- `scan_for_breaches`: the rows that were marked are committed if any step was notified, and are
-- otherwise lost with the session.
unfoldable pub scan_for_breaches : (ℕ → Bool) → ℕ → Db → Db × ℕ
unfolding overdue_count notified_count
scan_for_breaches delivered now db =
    let count = notified_count delivered 0 (overdue_count now db.requests) in
    (
      (if count == 0 then db else record db { requests = map (mark_request now) db.requests }),
      count,
    )
