-- ===== src/Ui.antt =====
-- What a page shows, in document order: its texts and its controls with their handlers. Class
-- names, icons and animations are left out.
use workflow_automation_plat.Common.{
  ℕ, suc, String, Bool, false, List, [], ◌∷◌, ◌++◌, ◌≡◌, ◌⊎◌, inl, inr, IsIn, All, All-append,
  subst, refl, true, if◌then◌else◌,
}

pub data Widget (M : Type 0) : Type 0 where
  text : String → Widget M
  number : ℕ → Widget M
  -- A control that the page does not read, by its placeholder or label.
  inert : String → Widget M
  spinner : Widget M
  -- Its label, `disabled`, and what a click sends.
  button : String → Bool → M → Widget M
  -- Its placeholder, its value, and what a change sends.
  input : String → String → (String → M) → Widget M
  -- Its value, its options' values with their labels, and what a choice sends.
  select : String → List (String × String) → (String → M) → Widget M
  -- Its label and its target.
  link : String → String → Widget M

module _ {M : Type 0} where
  -- The user can send the message through this control.
  abbrev pub Sends : Widget M → M → Type 0
  Sends (button l d k) m = (d ≡ false) × (k ≡ m)
  Sends (input p v f) m = (t : String) × (f t ≡ m)
  Sends (select v os f) m = (o : String × String) × IsIn o os × (f o.0 ≡ m)
  Sends _ m = ⊥

  -- Some control of the page sends the message.
  abbrev pub Offers : List (Widget M) → M → Type 0
  Offers [] m = ⊥
  Offers (w ∷ ws) m = Sends w m ⊎ Offers ws m

  pub Offers-append : (v w : List (Widget M)) (m : M) → Offers (v ++ w) m → Offers v m ⊎ Offers w m
  Offers-append [] w m h = inr h
  Offers-append (x ∷ v) w m (inl s) = inl (inl s)
  Offers-append (x ∷ v) w m (inr h) = elim (Offers-append v w m h) [
    | inl k ↦ inl (inr k)
    | inr k ↦ inr k
  ]

  -- `{b && …}`.
  abbrev pub when : Bool → List (Widget M) → List (Widget M)
  when b v = if b then v else []

-- `{xs.map((x, i) => …)}`, from the index `i` on.
abbrev pub each {ℓ} :
    {M : Type 0} {A : Type ℓ} → ℕ → (ℕ → A → List (Widget M)) → List A → List (Widget M)
each i f [] = []
each i f (x ∷ xs) = f i x ++ each (suc i) f xs

module _ {M : Type 0} (P : M → Type 0) where
  -- Whatever the control sends satisfies the predicate.
  abbrev pub Permits : Widget M → Type 0
  Permits (button l d k) = d ≡ false → P k
  Permits (input p v f) = (t : String) → P (f t)
  Permits (select v os f) = (o : String × String) → IsIn o os → P (f o.0)
  Permits _ = Unit

  Permits-Sends : (w : Widget M) (m : M) → Permits w → Sends w m → P m
  Permits-Sends (button l d k) m p (enabled, e) = subst P e (p enabled)
  Permits-Sends (input q v f) m p (t, e) = subst P e (p t)
  Permits-Sends (select v os f) m p (o, h, e) = subst P e (p o h)
  Permits-Sends (text t) m p h = elim h [ ]
  Permits-Sends (number n) m p h = elim h [ ]
  Permits-Sends (inert t) m p h = elim h [ ]
  Permits-Sends spinner m p h = elim h [ ]
  Permits-Sends (link t u) m p h = elim h [ ]

  pub Permits-Offers : (ws : List (Widget M)) (m : M) → All Permits ws → Offers ws m → P m
  Permits-Offers [] m _ h = elim h [ ]
  Permits-Offers (w ∷ ws) m (p, _) (inl h) = Permits-Sends w m p h
  Permits-Offers (w ∷ ws) m (_, ps) (inr h) = Permits-Offers ws m ps h

  pub All-when :
      (b : Bool) (ws : List (Widget M)) → (b ≡ true → All Permits ws) → All Permits (when b ws)
  All-when true ws h = h refl
  All-when false ws h = tt

  pub All-each {ℓ} :
      {A : Type ℓ} (f : ℕ → A → List (Widget M)) (i : ℕ) (xs : List A)
      → ((j : ℕ) (x : A) → All Permits (f j x))
      → All Permits (each i f xs)
  All-each f i [] h = tt
  All-each f i (x ∷ xs) h =
      All-append Permits (f i x) (each (suc i) f xs) (h i x) (All-each f (suc i) xs h)
