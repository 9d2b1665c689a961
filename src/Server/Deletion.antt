-- ===== src/Server/Deletion.antt =====
-- What the deletion of a workflow leaves.
use workflow_automation_plat.Common.{
  ℕ, ◌≡◌, ◌≢◌, refl, sym, ap, ◌∙◌, arith, String, Bool, true, false, not, Option, none, some, List,
  [], ◌∷◌, any, find, keep, ◌==◌, Bool-cases, Option-cases, inl, inr, ◌&&◌, ◌⊎◌,
}
use mathlib.Core.Bool.{false≢true}
use mathlib.Core.Option.{none-ne-some}
use workflow_automation_plat.Js.{Fields}
use workflow_automation_plat.Engine.Conditions.{Python}
use workflow_automation_plat.Engine.Process.{
  User, Workflow, Catalog, raised, not_found, start_workflow, start_found, is_first_of,
}
use workflow_automation_plat.Rbac.{check_role}
use workflow_automation_plat.Server.Store.{Db}
use workflow_automation_plat.Server.Protocols.{
  is_step_of, uses, without_workflow, get_workflow, delete_found, delete_workflow_as,
}

module _ {A : Type 0} (p q : A → Bool) where
  find-keep : (xs : List A) → ((x : A) → p x ≡ true → q x ≡ true) → find p (keep q xs) ≡ find p xs
  find-keep [] h = refl
  find-keep (x ∷ xs) h = elim (Bool-cases (p x)) [
    | inl e ↦ rw (h x e, e) refl
    | inr e ↦ elim (Bool-cases (q x)) [
      | inl f ↦ rw (f, e) (find-keep xs h)
      | inr f ↦ rw (f, e) (find-keep xs h)
    ]
  ]

  find-dropped : (xs : List A) → ((x : A) → p x ≡ true → q x ≡ false) → find p (keep q xs) ≡ none
  find-dropped [] h = refl
  find-dropped (x ∷ xs) h = elim (Bool-cases (q x)) [
    | inr f ↦ rw f (find-dropped xs h)
    | inl f ↦ elim (Bool-cases (p x)) [
      | inl e ↦ absurd (false≢true (sym (h x e) ∙ f))
      | inr e ↦ rw (f, e) (find-dropped xs h)
    ]
  ]

module _ (id : ℕ) (catalog : Catalog) (now : ℕ) (notified : Bool) (by : String)
    (context : Fields) where
  start_workflow-deleted :
      start_workflow (without_workflow id catalog) now notified id by context ≡ raised not_found
  unfolding start_workflow start_found without_workflow
  start_workflow-deleted =
      rw
        (find-dropped (λ (w : Workflow). (w.id == id) && w.is_active)
          (λ (w : Workflow). not (w.id == id)) catalog.workflows (λ w e. ground arith))
        refl

  start_found-first :
      (other : ℕ) (o : Option Workflow)
      → find (is_first_of other) (without_workflow id catalog).steps
        ≡ find (is_first_of other) catalog.steps
      → start_found (without_workflow id catalog) now notified other by context o
        ≡ start_found catalog now notified other by context o
  unfolding start_found
  start_found-first other none e = refl
  start_found-first other (some w) e = rw e refl

  start_workflow-other :
      (other : ℕ)
      → other ≢ id
      → start_workflow (without_workflow id catalog) now notified other by context
        ≡ start_workflow catalog now notified other by context
  unfolding start_workflow start_found without_workflow
  start_workflow-other other n =
      let first =
        find-keep (is_first_of other) (λ s. not (is_step_of id s)) catalog.steps
          (λ s e. ground (arith, n)) in
      start_found-first other _ first
      ∙ ap (start_found catalog now notified other by context) (
          find-keep (λ (w : Workflow). (w.id == other) && w.is_active)
            (λ (w : Workflow). not (w.id == id)) catalog.workflows (λ w e. ground (arith, n)))

module _ (py : Python) (id : ℕ) (me : User) (db : Db) where
  Deleted : Type 0
  Deleted =
      (delete_workflow_as py id me db
        ≡ (record db { catalog = without_workflow id db.catalog }, 204))
      × (check_role py me "admin" ≡ true)
      × (get_workflow id db ≢ none)
      × (any (uses id) db.requests ≡ false)

  Refused : Type 0
  Refused = (n : ℕ) × (n ≢ 204) × (delete_workflow_as py id me db ≡ (db, n))

  delete_cases : Refused ⊎ Deleted
  unfolding delete_workflow_as delete_found Refused Deleted
  delete_cases = elim (Bool-cases (check_role py me "admin")) [
    | inr e ↦ inl (403, (λ q. omega arith), rw e refl)
    | inl e ↦ elim (Option-cases (get_workflow id db)) [
      | inl f ↦ inl (404, (λ q. omega arith), rw (e, f) refl)
      | inr (w, f) ↦ elim (Bool-cases (any (uses id) db.requests)) [
        | inl g ↦ inl (500, (λ q. omega arith), rw (e, f, g) refl)
        | inr g ↦ inr (rw (e, f, g) refl, e, (λ q. none-ne-some _ (sym q ∙ f)), g)
      ]
    ]
  ]

  -- What the deletion of a workflow needs.
  abbrev pub MayDelete : Type 0
  MayDelete =
      (check_role py me "admin" ≡ true)
      × (get_workflow id db ≢ none)
      × (any (uses id) db.requests ≡ false)

  deleted_now : MayDelete → Deleted
  unfolding Deleted delete_workflow_as delete_found
  deleted_now (admin, found, free) = elim (Option-cases (get_workflow id db)) [
    | inl f ↦ absurd (found f)
    | inr (w, f) ↦ (rw (admin, f, free) refl, admin, found, free)
  ]

  -- A workflow is deleted, with status 204, exactly if an administrator asks for it, it exists, and
  -- no request is of it or was at a step of it. With any other status nothing changes. After the
  -- deletion the workflow is not in the table, it is not found by whoever starts it, and every other
  -- is started as before. The requests stay as they are in any case.
  pub delete_workflow_as_lem :
      let after = delete_workflow_as py id me db in
      (after.0.requests ≡ db.requests)
      × ((after.1 ≢ 204 → after.0 ≡ db) × (after.1 ≡ 204 → MayDelete))
      × (MayDelete
          → (after.1 ≡ 204)
            × (get_workflow id after.0 ≡ none)
            × ((now : ℕ) (notified : Bool) (by : String) (context : Fields)
                → (start_workflow after.0.catalog now notified id by context ≡ raised not_found)
                  × ((other : ℕ)
                      → other ≢ id
                      → start_workflow after.0.catalog now notified other by context
                        ≡ start_workflow db.catalog now notified other by context)))
  unfolding Refused Deleted
  delete_workflow_as_lem = (
    elim delete_cases [ inl (n, other, e) ↦ rw e refl | inr (e, _, _, _) ↦ rw e refl ],
    (
      elim delete_cases [
        | inl (n, other, e) ↦ rw e (λ k. refl)
        | inr (e, _, _, _) ↦ rw e (λ k. absurd (k refl))
      ],
      elim delete_cases [
        | inl (n, other, e) ↦ rw e (λ k. absurd (other k))
        | inr (e, a, b, c) ↦ rw e (λ k. (a, b, c))
      ],
    ),
    λ may. rw ((deleted_now may).0) (
      refl,
      unfold without_workflow in
          find-dropped (λ (w : Workflow). w.id == id) (λ (w : Workflow). not (w.id == id))
            db.catalog.workflows (λ w e. ground arith),
      λ now notified by context. (
        start_workflow-deleted id db.catalog now notified by context,
        start_workflow-other id db.catalog now notified by context,
      ),
    ),
  )
