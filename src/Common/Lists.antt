-- ===== src/Common/Lists.antt =====
-- Lists over the native numbers: JavaScript's array operations, and predicates by recursion.
use Prim.Native.Nat.{ℕ, zero, suc, ◌+◌}
use mathlib.Core.Path.{◌≡◌, refl, subst, ap, sym, ◌∙◌}
use mathlib.Core.Logic.{◌↔◌, ◌⊎◌, inl, inr}
use mathlib.Core.Bool.{false≢true, true, Bool, false, ◌||◌}
use mathlib.Core.Option.{Option, none, some, none-ne-some}
use mathlib.Core.List.{List, [], ◌∷◌, ◌++◌, map}
use native.Mathlib.Omega.{arith}
use workflow_automation_plat.Common.Tests.{Bool-cases, if◌then◌else◌}

module _ {ℓ} {A : Type ℓ} where
  -- `xs.length`.
  abbrev pub length : List A → ℕ
  length [] = 0
  length (x ∷ xs) = suc (length xs)

  -- `xs[i]`, `undefined` out of range.
  abbrev pub get_elem? : List A → ℕ → Option A
  get_elem? [] i = none
  get_elem? (x ∷ xs) zero = some x
  get_elem? (x ∷ xs) (suc i) = get_elem? xs i

  -- `xs.find(p)`.
  abbrev pub find : (A → Bool) → List A → Option A
  find p [] = none
  find p (x ∷ xs) = if p x then some x else find p xs

  -- `xs.some(p)`.
  abbrev pub any : (A → Bool) → List A → Bool
  any p [] = false
  any p (x ∷ xs) = p x || any p xs

  -- `xs.filter(p)`.
  abbrev pub keep : (A → Bool) → List A → List A
  keep p [] = []
  keep p (x ∷ xs) = let rest = keep p xs in if p x then x ∷ rest else rest

  -- `xs.slice(0, n)`.
  abbrev pub take : ℕ → List A → List A
  take zero xs = []
  take (suc n) [] = []
  take (suc n) (x ∷ xs) = x ∷ take n xs

  -- `xs.splice(i, 1)`: nothing is removed out of range.
  abbrev pub remove_at : ℕ → List A → List A
  remove_at i [] = []
  remove_at zero (x ∷ xs) = xs
  remove_at (suc i) (x ∷ xs) = x ∷ remove_at i xs

  abbrev pub modify_at : ℕ → (A → A) → List A → List A
  modify_at i f [] = []
  modify_at zero f (x ∷ xs) = f x ∷ xs
  modify_at (suc i) f (x ∷ xs) = x ∷ modify_at i f xs

  pub length-append : (xs ys : List A) → length (xs ++ ys) ≡ length xs + length ys
  length-append [] ys = omega arith
  length-append (x ∷ xs) ys = omega (arith, length-append xs ys)

  pub length-remove_at :
      (i : ℕ) (xs : List A) {x : A}
      → get_elem? xs i ≡ some x
      → length xs ≡ suc (length (remove_at i xs))
  length-remove_at zero [] e = absurd (none-ne-some _ e)
  length-remove_at (suc i) [] e = absurd (none-ne-some _ e)
  length-remove_at zero (x ∷ xs) e = refl
  length-remove_at (suc i) (x ∷ xs) e = ap suc (length-remove_at i xs e)

module _ {ℓ κ} {A : Type ℓ} where
  abbrev pub All : (A → Type κ) → List A → Type κ
  All P [] = Unit
  All P (x ∷ xs) = P x × All P xs

  pub All-append : (P : A → Type κ) (xs ys : List A) → All P xs → All P ys → All P (xs ++ ys)
  All-append P [] ys _ k = k
  All-append P (x ∷ xs) ys (p, h) k = (p, All-append P xs ys h k)

module _ {ℓ κ} {A : Type ℓ} {B : Type κ} where
  pub length-map : (f : A → B) (xs : List A) → length (map f xs) ≡ length xs
  length-map f [] = refl
  length-map f (x ∷ xs) = omega (arith, length-map f xs)

module _ {ℓ} {A : Type ℓ} where
  -- What the first part of a list does not have is looked for in the rest.
  pub find-append :
      (p : A → Bool) (xs ys : List A) → All (λ x. p x ≡ false) xs → find p (xs ++ ys) ≡ find p ys
  find-append p [] ys h = refl
  find-append p (x ∷ xs) ys (e, h) = rw e (find-append p xs ys h)

module _ {A : Type 0} where
  -- Membership by recursion, which the tactics take apart.
  abbrev pub IsIn : A → List A → Type 0
  IsIn a [] = ⊥
  IsIn a (x ∷ xs) = (a ≡ x) ⊎ IsIn a xs

  pub IsIn-append_left : (a : A) (xs ys : List A) → IsIn a xs → IsIn a (xs ++ ys)
  IsIn-append_left a [] ys h = elim h [ ]
  IsIn-append_left a (x ∷ xs) ys (inl e) = inl e
  IsIn-append_left a (x ∷ xs) ys (inr h) = inr (IsIn-append_left a xs ys h)

  pub IsIn-append_right : (a : A) (xs ys : List A) → IsIn a ys → IsIn a (xs ++ ys)
  IsIn-append_right a [] ys h = h
  IsIn-append_right a (x ∷ xs) ys h = inr (IsIn-append_right a xs ys h)

  pub All-IsIn {κ} : (P : A → Type κ) (xs : List A) (a : A) → All P xs → IsIn a xs → P a
  All-IsIn P [] a h k = elim k [ ]
  All-IsIn P (x ∷ xs) a (p, h) (inl e) = subst P (sym e) p
  All-IsIn P (x ∷ xs) a (p, h) (inr k) = All-IsIn P xs a h k

  pub All-from {κ} : (P : A → Type κ) (xs : List A) → ((a : A) → IsIn a xs → P a) → All P xs
  All-from P [] h = tt
  All-from P (x ∷ xs) h = (h x (inl refl), All-from P xs (λ a k. h a (inr k)))

  pub IsIn-append_cases : (a : A) (xs ys : List A) → IsIn a (xs ++ ys) → IsIn a xs ⊎ IsIn a ys
  IsIn-append_cases a [] ys h = inr h
  IsIn-append_cases a (x ∷ xs) ys (inl e) = inl (inl e)
  IsIn-append_cases a (x ∷ xs) ys (inr h) = elim (IsIn-append_cases a xs ys h) [
    | inl k ↦ inl (inr k)
    | inr k ↦ inr k
  ]

-- A chain of proofs, for the elements of a list in turn.
infixr 6 ◌&◌
abbrev pub ◌&◌ {ℓ κ} : {A : Type ℓ} {B : Type κ} → A → B → A × B
a & b = (a, b)

module _ {A : Type 0} (p : A → Bool) where
  pub keep-mem : (a : A) (xs : List A) → IsIn a (keep p xs) ↔ (IsIn a xs × (p a ≡ true))
  keep-mem a [] = ((λ h. absurd h), λ h. h.0)
  keep-mem a (x ∷ xs) =
      let (to, from) = keep-mem a xs in
      elim (Bool-cases (p x)) [ inl e ↦ rw e (kept e to from) | inr e ↦ rw e (dropped e to from) ]
    where
      kept :
          p x ≡ true
          → (IsIn a (keep p xs) → IsIn a xs × (p a ≡ true))
          → (IsIn a xs × (p a ≡ true) → IsIn a (keep p xs))
          → IsIn a (x ∷ keep p xs) ↔ (IsIn a (x ∷ xs) × (p a ≡ true))
      kept e to from = (
        (λ h. elim h [ inl q ↦ (inl q, rw q e) | inr k ↦ (inr (to k).0, (to k).1) ]),
        λ h. elim h.0 [ inl q ↦ inl q | inr k ↦ inr (from (k, h.1)) ],
      )

      dropped :
          p x ≡ false
          → (IsIn a (keep p xs) → IsIn a xs × (p a ≡ true))
          → (IsIn a xs × (p a ≡ true) → IsIn a (keep p xs))
          → IsIn a (keep p xs) ↔ (IsIn a (x ∷ xs) × (p a ≡ true))
      dropped e to from = (
        (λ k. (inr (to k).0, (to k).1)),
        λ h. elim h.0 [
          | inl q ↦ absurd (false≢true (sym e ∙ ap p (sym q) ∙ h.1))
          | inr k ↦ from (k, h.1)
        ],
      )
