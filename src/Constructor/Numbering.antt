-- ===== src/Constructor/Numbering.antt =====
-- What holds of the list of steps whatever the controls do to it.
use workflow_automation_plat.Common.{
  ℕ, zero, suc, ◌+◌, ◌≡◌, ◌≢◌, refl, sym, arith, String, List, [], ◌∷◌, ◌++◌, length, remove_at,
  All, All-append,
}
use workflow_automation_plat.Constructor.Nodes.{
  Step, Edit, new_step, add_step, reorder, remove_step, update_step, apply_edit,
}
use workflow_automation_plat.Constructor.Controls.{
  IsFormEdit, name_edit, description_edit, role_edit,
}

-- The orders are consecutive, from `i + 1` on.
abbrev pub NumberedFrom : ℕ → List Step → Type 0
NumberedFrom i [] = Unit
NumberedFrom i (s ∷ steps) = (s.step_order ≡ i + 1) × NumberedFrom (suc i) steps

-- No step has the identifier.
abbrev pub IsFresh : String → List Step → Type 0
IsFresh id steps = All (λ (s : Step). s.temp_id ≢ id) steps

abbrev pub HasDistinctIds : List Step → Type 0
HasDistinctIds [] = Unit
HasDistinctIds (s ∷ steps) = IsFresh s.temp_id steps × HasDistinctIds steps

pub reorder-NumberedFrom : (i : ℕ) (steps : List Step) → NumberedFrom i (reorder i steps)
unfolding reorder
reorder-NumberedFrom i [] = tt
reorder-NumberedFrom i (s ∷ steps) = (refl, reorder-NumberedFrom (suc i) steps)

append-NumberedFrom :
    (i : ℕ) (s : Step) (steps : List Step)
    → NumberedFrom i steps
    → s.step_order ≡ i + length steps + 1
    → NumberedFrom i (steps ++ s ∷ [])
append-NumberedFrom i s [] _ e = (omega arith, tt)
append-NumberedFrom i s (t ∷ steps) (p, h) e =
    (p, append-NumberedFrom (suc i) s steps h (omega arith))

pub add_step-NumberedFrom :
    (id : String) (steps : List Step) → NumberedFrom 0 steps → NumberedFrom 0 (add_step id steps)
unfolding add_step
add_step-NumberedFrom id steps h =
    append-NumberedFrom 0 (new_step id (length steps)) steps h (omega arith)

pub remove_step-NumberedFrom : (i : ℕ) (steps : List Step) → NumberedFrom 0 (remove_step i steps)
unfolding remove_step
remove_step-NumberedFrom i steps = reorder-NumberedFrom 0 (remove_at i steps)

apply_edit-order : (e : Edit) (s : Step) → IsFormEdit e → (apply_edit e s).step_order ≡ s.step_order
apply_edit-order e s (name_edit t) = refl
apply_edit-order e s (description_edit t) = refl
apply_edit-order e s (role_edit t) = refl

apply_edit-temp_id : (e : Edit) (s : Step) → IsFormEdit e → (apply_edit e s).temp_id ≡ s.temp_id
apply_edit-temp_id e s (name_edit t) = refl
apply_edit-temp_id e s (description_edit t) = refl
apply_edit-temp_id e s (role_edit t) = refl

pub update_step-NumberedFrom :
    (i index : ℕ) (e : Edit) (steps : List Step)
    → IsFormEdit e
    → NumberedFrom i steps
    → NumberedFrom i (update_step index e steps)
unfolding update_step
update_step-NumberedFrom i index e [] f _ = tt
update_step-NumberedFrom i zero e (s ∷ steps) f (p, h) = (rw (apply_edit-order e s f) p, h)
update_step-NumberedFrom i (suc index) e (s ∷ steps) f (p, h) =
    (p, update_step-NumberedFrom (suc i) index e steps f h)

-- The identifiers are those of the list before, where one control changes it.
reorder-IsFresh :
    (id : String) (i : ℕ) (steps : List Step) → IsFresh id steps → IsFresh id (reorder i steps)
unfolding reorder
reorder-IsFresh id i [] _ = tt
reorder-IsFresh id i (s ∷ steps) (n, h) = (n, reorder-IsFresh id (suc i) steps h)

reorder-HasDistinctIds :
    (i : ℕ) (steps : List Step) → HasDistinctIds steps → HasDistinctIds (reorder i steps)
unfolding reorder
reorder-HasDistinctIds i [] _ = tt
reorder-HasDistinctIds i (s ∷ steps) (f, h) =
    (reorder-IsFresh s.temp_id (suc i) steps f, reorder-HasDistinctIds (suc i) steps h)

remove_at-IsFresh :
    (id : String) (i : ℕ) (steps : List Step) → IsFresh id steps → IsFresh id (remove_at i steps)
remove_at-IsFresh id zero [] _ = tt
remove_at-IsFresh id (suc i) [] _ = tt
remove_at-IsFresh id zero (s ∷ steps) (n, h) = h
remove_at-IsFresh id (suc i) (s ∷ steps) (n, h) = (n, remove_at-IsFresh id i steps h)

remove_at-HasDistinctIds :
    (i : ℕ) (steps : List Step) → HasDistinctIds steps → HasDistinctIds (remove_at i steps)
remove_at-HasDistinctIds zero [] _ = tt
remove_at-HasDistinctIds (suc i) [] _ = tt
remove_at-HasDistinctIds zero (s ∷ steps) (f, h) = h
remove_at-HasDistinctIds (suc i) (s ∷ steps) (f, h) =
    (remove_at-IsFresh s.temp_id i steps f, remove_at-HasDistinctIds i steps h)

pub remove_step-HasDistinctIds :
    (i : ℕ) (steps : List Step) → HasDistinctIds steps → HasDistinctIds (remove_step i steps)
unfolding remove_step
remove_step-HasDistinctIds i steps h =
    reorder-HasDistinctIds 0 (remove_at i steps) (remove_at-HasDistinctIds i steps h)

append-HasDistinctIds :
    (s : Step) (steps : List Step)
    → IsFresh s.temp_id steps
    → HasDistinctIds steps
    → HasDistinctIds (steps ++ s ∷ [])
append-HasDistinctIds s [] _ _ = (tt, tt)
append-HasDistinctIds s (t ∷ steps) (n, f) (g, h) = (
  All-append (λ (u : Step). u.temp_id ≢ t.temp_id) steps (s ∷ []) g ((λ e. n (sym e)), tt),
  append-HasDistinctIds s steps f h,
)

pub add_step-HasDistinctIds :
    (id : String) (steps : List Step)
    → IsFresh id steps
    → HasDistinctIds steps
    → HasDistinctIds (add_step id steps)
unfolding add_step
add_step-HasDistinctIds id steps f h = append-HasDistinctIds (new_step id (length steps)) steps f h

module _ (e : Edit) (f : IsFormEdit e) where
  update_step-IsFresh :
      (id : String) (index : ℕ) (steps : List Step)
      → IsFresh id steps
      → IsFresh id (update_step index e steps)
  unfolding update_step
  update_step-IsFresh id index [] _ = tt
  update_step-IsFresh id zero (s ∷ steps) (n, h) = (rw (apply_edit-temp_id e s f) n, h)
  update_step-IsFresh id (suc index) (s ∷ steps) (n, h) = (n, update_step-IsFresh id index steps h)

  pub update_step-HasDistinctIds :
      (index : ℕ) (steps : List Step)
      → HasDistinctIds steps
      → HasDistinctIds (update_step index e steps)
  unfolding update_step
  update_step-HasDistinctIds index [] _ = tt
  update_step-HasDistinctIds zero (s ∷ steps) (g, h) = (rw (apply_edit-temp_id e s f) g, h)
  update_step-HasDistinctIds (suc index) (s ∷ steps) (g, h) =
      (update_step-IsFresh s.temp_id index steps g, update_step-HasDistinctIds index steps h)
