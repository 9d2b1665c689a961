-- ===== src/Server/Stats.antt =====
-- What the dashboard's numbers add up to.
use workflow_automation_plat.Common.{
  ℕ, ◌+◌, ◌≡◌, ◌≤◌, arith, Bool, List, [], ◌∷◌, All, keep, length, inl, inr, Bool-cases, str_eq,
}
use workflow_automation_plat.Lifecycle.{in_progress, completed}
use workflow_automation_plat.Engine.Conditions.{Python}
use workflow_automation_plat.Engine.Process.{RequestStep}
use workflow_automation_plat.Engine.Progress.{HasOneOpen}
use workflow_automation_plat.Engine.Waiting.{IsWaiting}
use workflow_automation_plat.Server.Store.{RequestRow, Db}
use workflow_automation_plat.Server.Listing.{count_steps, count_status, dashboard_stats}
use workflow_automation_plat.Server.Kept.{AllKept}
use workflow_automation_plat.Server.Invariant.{Reaches, Reaches-AllKept}

abbrev is_waiting : RequestStep → Bool
is_waiting x = str_eq x.status "PENDING"

-- A request in progress has a step that waits.
open-counts :
    (id : ℕ) (xs : List RequestStep)
    → HasOneOpen id xs
    → All IsWaiting xs
    → 1 ≤ length (keep is_waiting xs)
open-counts id [] h w = elim h [ ]
open-counts id (x ∷ xs) (inl (e, f, c)) (p, w) = rw (p e) (omega arith)
open-counts id (x ∷ xs) (inr (t, h)) (p, w) =
    let rest = open-counts id xs h w in
    elim (Bool-cases (is_waiting x)) [ inl e ↦ rw e (omega arith) | inr e ↦ rw e rest ]

counted :
    (rows : List RequestRow)
    → AllKept rows
    → (count_status in_progress rows + count_status completed rows ≡ length rows)
      × (count_status in_progress rows ≤ count_steps is_waiting rows)
unfolding count_status count_steps
counted [] h = omega arith
counted (r ∷ rows) (((t, inl (s, (id, e, o))), w), h) =
    let (a, b) = counted rows h in
    let some_wait = open-counts id r.state.steps o w in rw s (omega arith)
counted (r ∷ rows) (((t, inr (s, e, c)), w), h) = let (a, b) = counted rows h in rw s (omega arith)

-- In every state that the database reaches, each request is counted as active or as completed, and
-- there are at least as many pending steps as active requests.
pub dashboard_stats_lem :
    (py : Python) {db : Db}
    → Reaches py db
    → let c = dashboard_stats db in
      (c.active + c.completed_count ≡ length db.requests) × (c.active ≤ c.pending)
unfolding dashboard_stats
dashboard_stats_lem py {db} h = counted db.requests (Reaches-AllKept py h)
