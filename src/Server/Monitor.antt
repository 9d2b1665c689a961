-- ===== src/Server/Monitor.antt =====
-- What a scan of the monitor does, also where notifications fail.
use workflow_automation_plat.Common.{
  ℕ, zero, suc, ◌≡◌, ◌≢◌, ◌≤◌, refl, sym, ◌∙◌, arith, Bool, true, false, List, [], ◌∷◌, map, keep,
  inl, inr, Bool-cases, ◌==◌, ==_iff,
}
use workflow_automation_plat.Engine.Process.{RequestStep}
use workflow_automation_plat.Server.Store.{RequestRow, Db}
use workflow_automation_plat.Server.Sla.{
  is_overdue, mark, mark_request, overdue_count, notified_count, scan_for_breaches,
}

marked : (now : ℕ) (x : RequestStep) → is_overdue now (mark now x) ≡ false
marked now x = elim (Bool-cases (is_overdue now x)) [ inl e ↦ rw e (ground arith) | inr e ↦ rw e e ]

none-overdue : (now : ℕ) (xs : List RequestStep) → keep (is_overdue now) (map (mark now) xs) ≡ []
none-overdue now [] = refl
none-overdue now (x ∷ xs) = rw (marked now x, none-overdue now xs) refl

marked-count :
    (now : ℕ) (rows : List RequestRow) → overdue_count now (map (mark_request now) rows) ≡ 0
unfolding overdue_count
marked-count now [] = refl
marked-count now (r ∷ rows) =
    rw (none-overdue now r.state.steps, marked-count now rows) (omega arith)

notified-all :
    (delivered : ℕ → Bool) (i n : ℕ)
    → ((j : ℕ) → delivered j ≡ true)
    → notified_count delivered i n ≡ n
unfolding notified_count
notified-all delivered i zero h = refl
notified-all delivered i (suc n) h = rw (h i, notified-all delivered (suc i) n h) (omega arith)

notified-none :
    (delivered : ℕ → Bool) (i n : ℕ)
    → ((j : ℕ) → delivered j ≡ false)
    → notified_count delivered i n ≡ 0
unfolding notified_count
notified-none delivered i zero h = refl
notified-none delivered i (suc n) h = rw (h i, notified-none delivered (suc i) n h) refl

notified-le : (delivered : ℕ → Bool) (i n : ℕ) → notified_count delivered i n ≤ n
unfolding notified_count
notified-le delivered i zero = omega arith
notified-le delivered i (suc n) = let rest = notified-le delivered (suc i) n in ground arith

scanned_once :
    (delivered : ℕ → Bool) (now : ℕ) (db : Db)
    → (scan_for_breaches delivered now db).1
      ≡ notified_count delivered 0 (overdue_count now db.requests)
unfolding scan_for_breaches
scanned_once delivered now db = refl

quiet :
    (delivered : ℕ → Bool) (now : ℕ) (db : Db)
    → overdue_count now db.requests ≡ 0
    → scan_for_breaches delivered now db ≡ (db, 0)
unfolding scan_for_breaches
quiet delivered now db e = rw e refl

kept :
    (delivered : ℕ → Bool) (now : ℕ) (db : Db)
    → notified_count delivered 0 (overdue_count now db.requests) ≡ 0
    → (scan_for_breaches delivered now db).0 ≡ db
unfolding scan_for_breaches
kept delivered now db e = rw e refl

cleared :
    (delivered : ℕ → Bool) (now : ℕ) (db : Db)
    → notified_count delivered 0 (overdue_count now db.requests) ≢ 0
    → overdue_count now (scan_for_breaches delivered now db).0.requests ≡ 0
unfolding scan_for_breaches
cleared delivered now db e =
    let n = notified_count delivered 0 (overdue_count now db.requests) in
    let some_n : (n == 0) ≡ false = ground (arith, ==_iff n 0) in
    rw some_n (marked-count now db.requests)

-- A scan reports at most the overdue steps, and all of them if every notification is taken. If it
-- reports none, nothing is changed, so that the steps are found again. If it reports any, then no
-- step is overdue any more, not even one whose notification failed: another scan at the same time
-- finds none and changes nothing.
pub scan_for_breaches_lem :
    (delivered : ℕ → Bool) (now : ℕ) (db : Db)
    → let after = scan_for_breaches delivered now db in
      (after.1 ≤ overdue_count now db.requests)
      × (((j : ℕ) → delivered j ≡ true) → after.1 ≡ overdue_count now db.requests)
      × (after.1 ≡ 0 → after.0 ≡ db)
      × (after.1 ≢ 0
          → (overdue_count now after.0.requests ≡ 0)
            × ((again : ℕ → Bool) → scan_for_breaches again now after.0 ≡ (after.0, 0)))
scan_for_breaches_lem delivered now db =
    let n = overdue_count now db.requests in
    let same = scanned_once delivered now db in
    (
      rw same (notified-le delivered 0 n),
      (λ h. rw same (notified-all delivered 0 n h)),
      (λ e. kept delivered now db (sym same ∙ e)),
      λ e.
          let none_left = cleared delivered now db (λ k. e (same ∙ k)) in
          (none_left, λ again. quiet again now (scan_for_breaches delivered now db).0 none_left),
    )
