-- ===== src/Protocols/Deletion.antt =====
-- Deletions whose answers arrive one after the other, or after another deletion was begun.
use workflow_automation_plat.Common.{
  ◌≢◌, ◌↔◌, sym, ap, ◌∙◌, String, true, not, List, IsIn, keep-mem, str_eq, eq_iff, Bool-cases, inl,
  inr,
}
use mathlib.Core.Bool.{false≢true}
use workflow_automation_plat.Protocols.{Workflow, State, without, deleted}

without-mem :
    (id : String) (w : Workflow) (ws : List Workflow)
    → IsIn w (without id ws) ↔ (IsIn w ws × (w.id ≢ id))
unfolding without
without-mem id w ws =
    let (to, from) = keep-mem (λ (v : Workflow). not (str_eq v.id id)) w ws in
    let (equal, same) = eq_iff w.id id in
    (
      (λ h. ((to h).0, λ e. false≢true (ap not (sym (same e)) ∙ (to h).1))),
      λ h. from (
        h.0,
        elim (Bool-cases (str_eq w.id id)) [ inl e ↦ absurd (h.1 (equal e)) | inr e ↦ ap not e ],
      ),
    )

-- Two deletions of different workflows that both succeed. If the second is begun on the list that
-- the first has left, exactly the other workflows are shown. If it is begun before the first is
-- answered, both filter the same list, and the workflow deleted first is shown again.
pub deleted_twice :
    (first second w : Workflow) (s : State)
    → IsIn first s.workflows
    → first.id ≢ second.id
    → let once = (deleted true s.workflows first.id s).0 in
      (IsIn w (deleted true once.workflows second.id once).0.workflows
        ↔ (IsIn w s.workflows × (w.id ≢ first.id) × (w.id ≢ second.id)))
      × IsIn first (deleted true s.workflows second.id once).0.workflows
unfolding deleted
deleted_twice first second w s h n =
    let (to, from) = without-mem second.id w (without first.id s.workflows) in
    let (to', from') = without-mem first.id w s.workflows in
    (
      ((λ k. ((to' (to k).0).0, (to' (to k).0).1, (to k).1)), λ k. from (from' (k.0, k.1), k.2)),
      (without-mem second.id first s.workflows).1 (h, n),
    )
