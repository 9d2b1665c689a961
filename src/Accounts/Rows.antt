-- ===== src/Accounts/Rows.antt =====
-- Tables in which no two rows agree on a column.
use workflow_automation_plat.Common.{
  ◌≡◌, ◌≢◌, refl, sym, ap, ◌∙◌, arith, String, Bool, true, false, none, some, List, [], ◌∷◌, ◌++◌,
  All, IsIn, All-IsIn, All-from, find, any, inl, inr, Bool-cases, str_eq, eq_iff,
}
use mathlib.Core.Option.{some-injective, none-ne-some}
use workflow_automation_plat.Engine.Process.{User}
use workflow_automation_plat.Accounts.{set_user}

module _ {A : Type 0} (p : A → Bool) where
  pub find_found : (xs : List A) {x : A} → find p xs ≡ some x → IsIn x xs × (p x ≡ true)
  find_found [] e = absurd (none-ne-some _ e)
  find_found (y ∷ xs) {x} e = elim (Bool-cases (p y)) [
    | inl f ↦
        let same : y ≡ x = some-injective _ _ (rw f at e) in (inl (sym same), sym (ap p same) ∙ f)
    | inr f ↦ let (i, q) = find_found xs (rw f at e) in (inr i, q)
  ]

  pub find_missed : (xs : List A) → find p xs ≡ none → All (λ x. p x ≡ false) xs
  find_missed [] e = tt
  find_missed (y ∷ xs) e = elim (Bool-cases (p y)) [
    | inl f ↦ absurd (none-ne-some _ (sym (rw f at e)))
    | inr f ↦ (f, find_missed xs (rw f at e))
  ]

  pub any_missed : (xs : List A) → any p xs ≡ false → All (λ x. p x ≡ false) xs
  any_missed [] e = tt
  any_missed (y ∷ xs) e = (ground arith, any_missed xs (ground arith))

  pub any_missed-find : (xs : List A) → any p xs ≡ false → find p xs ≡ none
  any_missed-find [] e = refl
  any_missed-find (y ∷ xs) e =
      let off : p y ≡ false = ground arith in rw off (any_missed-find xs (ground arith))

module _ (f : User → String) where
  abbrev pub AreDistinct : List User → Type 0
  AreDistinct [] = Unit
  AreDistinct (u ∷ users) = All (λ v. f v ≢ f u) users × AreDistinct users

  pub AreDistinct-append :
      (users : List User) (u : User)
      → AreDistinct users
      → All (λ v. f v ≢ f u) users
      → AreDistinct (users ++ u ∷ [])
  AreDistinct-append [] u h k = (tt, tt)
  AreDistinct-append (v ∷ users) u (d, h) (n, k) =
      (apart users d (λ e. n (sym e)), AreDistinct-append users u h k)
    where
      apart :
          (us : List User)
          → All (λ w. f w ≢ f v) us
          → f u ≢ f v
          → All (λ w. f w ≢ f v) (us ++ u ∷ [])
      apart [] d m = (m, tt)
      apart (w ∷ us) (a, d) m = (a, apart us d m)

  pub AreDistinct-same :
      (users : List User) (u v : User)
      → AreDistinct users
      → IsIn u users
      → IsIn v users
      → f u ≡ f v
      → u ≡ v
  AreDistinct-same [] u v h i j e = elim i [ ]
  AreDistinct-same (w ∷ users) u v (d, h) (inl i) (inl j) e = i ∙ sym j
  AreDistinct-same (w ∷ users) u v (d, h) (inl i) (inr j) e =
      absurd (All-IsIn (λ q. f q ≢ f w) users v d j (sym e ∙ ap f i))
  AreDistinct-same (w ∷ users) u v (d, h) (inr i) (inl j) e =
      absurd (All-IsIn (λ q. f q ≢ f w) users u d i (e ∙ ap f j))
  AreDistinct-same (w ∷ users) u v (d, h) (inr i) (inr j) e = AreDistinct-same users u v h i j e

pub set_user-All :
    (P : User → Type 0) (row : User) (users : List User)
    → P row
    → All P users
    → All P (set_user row users)
unfolding set_user
set_user-All P row [] p h = tt
set_user-All P row (u ∷ users) p (k, h) = elim (Bool-cases (str_eq u.id row.id)) [
  | inl e ↦ rw e (p, h)
  | inr e ↦ rw e (k, set_user-All P row users p h)
]

-- A row may take the place of the one with its identifier if no other row has its value.
pub set_user-AreDistinct :
    (f : User → String) (row : User) (users : List User)
    → AreDistinct (λ u. u.id) users
    → AreDistinct f users
    → ((v : User) → IsIn v users → v.id ≢ row.id → f v ≢ f row)
    → AreDistinct f (set_user row users)
unfolding set_user
set_user-AreDistinct f row [] i h k = tt
set_user-AreDistinct f row (u ∷ users) (d, i) (a, h) k = elim (Bool-cases (str_eq u.id row.id)) [
  | inl e ↦
      let same : u.id ≡ row.id = ground (arith, eq_iff u.id row.id) in
      rw e (
        All-from (λ v. f v ≢ f row) users
            (λ v j.
              k v (inr j) (λ q. All-IsIn (λ (w : User). w.id ≢ u.id) users v d j (q ∙ sym same))),
        h,
      )
  | inr e ↦
      let n : u.id ≢ row.id = ground (arith, eq_iff u.id row.id) in
      rw e (
        set_user-All (λ v. f v ≢ f u) row users (λ q. k u (inl refl) n (sym q)) a,
        set_user-AreDistinct f row users i h (λ v j. k v (inr j)),
      )
]
