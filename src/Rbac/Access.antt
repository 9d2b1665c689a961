-- ===== src/Rbac/Access.antt =====
-- What the checks let through, and how they agree with the engine's own check.
use workflow_automation_plat.Common.{
  ◌≡◌, ◌↔◌, ◌⊎◌, refl, sym, ap, subst, ◌∙◌, arith, String, Bool, true, false, not, none, some, List,
  [], ◌∷◌, ◌++◌, map, any, keep-mem, ◌||◌, str_eq, eq_refl, inl, inr, IsIn, Bool-cases,
}
use mathlib.Core.Bool.{false≢true}
use workflow_automation_plat.Engine.Conditions.{Python}
use workflow_automation_plat.Engine.Process.{Permission, Role, User, WorkflowStep, role_missing}
use workflow_automation_plat.Engine.Step.{is_admin, meets, role_ids, refusal}
use workflow_automation_plat.Rbac.{
  has_permission, has_role, permission_names, missing, check_permissions, check_role,
}

any-append {ℓ} :
    {A : Type ℓ} (p : A → Bool) (xs ys : List A) → any p (xs ++ ys) ≡ any p xs || any p ys
any-append p [] ys = refl
any-append p (x ∷ xs) ys = ground (arith, any-append p xs ys)

any-map {ℓ κ} :
    {A : Type ℓ} {B : Type κ} (p : B → Bool) (f : A → B) (xs : List A)
    → any p (map f xs) ≡ any (λ x. p (f x)) xs
any-map p f [] = refl
any-map p f (x ∷ xs) = ap (λ b. p (f x) || b) (any-map p f xs)

-- The set of names has those of every role.
permission_names-has :
    (name : String) (rs : List Role)
    → any (λ q. str_eq q name) (permission_names rs)
      ≡ any (λ (r : Role). any (λ (p : Permission). str_eq p.name name) r.permissions) rs
unfolding permission_names
permission_names-has name [] = refl
permission_names-has name (r ∷ rs) =
    any-append _ (map (λ (p : Permission). p.name) r.permissions) (permission_names rs)
    ∙ rw
        (
          any-map (λ q. str_eq q name) (λ (p : Permission). p.name) r.permissions,
          permission_names-has name rs,
        )
        refl

not-false : (b : Bool) → (not b ≡ true) ↔ (b ≡ false)
not-false true = ground arith
not-false false = ground arith

-- The permissions that the check finds missing are the required ones that the user has by no role.
pub missing-mem :
    (user : User) (required : List String) (name : String)
    → IsIn name (missing user required) ↔ (IsIn name required × (has_permission user name ≡ false))
unfolding missing has_permission
missing-mem user required name =
    let test = λ (p : String). not (any (λ q. str_eq q p) (permission_names user.roles)) in
    let (to, from) = keep-mem test name required in
    let same = permission_names-has name user.roles in
    let (off, on) = not-false (any (λ q. str_eq q name) (permission_names user.roles)) in
    ((λ h. ((to h).0, sym same ∙ off (to h).1)), λ (h, k). from (h, on (same ∙ k)))

empty-mem : (xs : List String) → ((x : String) → IsIn x xs → ⊥) → xs ≡ []
empty-mem [] h = refl
empty-mem (x ∷ xs) h = absurd (h x (inl refl))

passes :
    (user : User) (required : List String)
    → check_permissions user required ≡ none
    → missing user required ≡ []
unfolding check_permissions
passes user required e = ground arith

raised_names :
    (user : User) (required names : List String)
    → check_permissions user required ≡ some names
    → missing user required ≡ names
unfolding check_permissions
raised_names user required names e = ground arith

-- The check passes exactly if the user has each required permission by some role. If it raises,
-- it names exactly the required permissions that the user has by none.
pub check_permissions_lem :
    (user : User) (required : List String)
    → ((check_permissions user required ≡ none)
        ↔ ((name : String) → IsIn name required → has_permission user name ≡ true))
      × ((names : List String)
          → check_permissions user required ≡ some names
          → (name : String)
          → IsIn name names ↔ (IsIn name required × (has_permission user name ≡ false)))
unfolding check_permissions
check_permissions_lem user required = (
  (
    (λ e name h. elim (Bool-cases (has_permission user name)) [
      | inl yes_it ↦ yes_it
      | inr not_it ↦
          absurd (rw (passes user required e) at ((missing-mem user required name).1 (h, not_it)))
    ]),
    λ h.
        rw
          (empty-mem (missing user required) (λ name k.
            let (i, f) = (missing-mem user required name).0 k in false≢true (sym f ∙ h name i)))
          refl,
  ),
  λ names e name.
      subst (λ ns. IsIn name ns ↔ (IsIn name required × (has_permission user name ≡ false)))
        (raised_names user required names e) (missing-mem user required name),
)

-- `check_role` for "admin" lets through exactly those who are administrators by the engine's own
-- check and those who have the role "superadmin"; the full name, which its docstring speaks of, is
-- not looked at. The engine does not count the latter as administrators: who has "superadmin" and not
-- "admin" passes `check_role`, but is refused at a step that requires a role that the user has not.
-- The lower-case texts are as Python has them.
pub check_role-admin :
    (py : Python) (user : User)
    → py.lower "admin" ≡ "admin"
    → py.lower "ADMIN" ≡ "admin"
    → ((check_role py user "admin" ≡ true)
        ↔ ((is_admin py user ≡ true) ⊎ (has_role py user "superadmin" ≡ true)))
      × ((step : WorkflowStep)
          → has_role py user "superadmin" ≡ true
          → is_admin py user ≡ false
          → meets step.required_role_id (role_ids user.roles) ≡ false
          → (check_role py user "admin" ≡ true) × (refusal py user step ≡ some role_missing))
unfolding check_role has_role refusal
check_role-admin py user a b = (
  rw (a, b, eq_refl "admin") (ground arith),
  λ step super other unmet. (rw (a, b, eq_refl "admin") (ground arith), rw (other, unmet) refl),
)
