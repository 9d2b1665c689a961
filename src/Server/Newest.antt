-- ===== src/Server/Newest.antt =====
-- Rows ordered by their time, skipped and cut off.
use workflow_automation_plat.Common.{
  ℕ, zero, suc, ◌≡◌, ◌≤◌, refl, ap, ◌∙◌, arith, List, [], ◌∷◌, All, IsIn, take, length, inl, inr,
  Bool-cases, leb,
}
use workflow_automation_plat.Server.Store.{RequestRow}
use workflow_automation_plat.Server.Listing.{insert_newest, newest_first, drop}

abbrev pub IsNewestFirst : List RequestRow → Type 0
IsNewestFirst [] = Unit
IsNewestFirst (r ∷ rows) =
    All (λ (q : RequestRow). q.created_at ≤ r.created_at) rows × IsNewestFirst rows

-- Rows that satisfy a predicate still do when they are ordered, skipped, or cut off.
insert_newest-All :
    (P : RequestRow → Type 0) (r : RequestRow) (rows : List RequestRow)
    → P r
    → All P rows
    → All P (insert_newest r rows)
unfolding insert_newest
insert_newest-All P r [] p h = (p, tt)
insert_newest-All P r (q ∷ rows) p (k, h) = elim (Bool-cases (leb q.created_at r.created_at)) [
  | inl e ↦ rw e (p, (k, h))
  | inr e ↦ rw e (k, insert_newest-All P r rows p h)
]

pub newest_first-All :
    (P : RequestRow → Type 0) (rows : List RequestRow) → All P rows → All P (newest_first rows)
unfolding newest_first
newest_first-All P [] h = tt
newest_first-All P (r ∷ rows) (p, h) =
    insert_newest-All P r (newest_first rows) p (newest_first-All P rows h)

pub drop-All :
    (P : RequestRow → Type 0) (n : ℕ) (rows : List RequestRow) → All P rows → All P (drop n rows)
unfolding drop
drop-All P zero rows h = h
drop-All P (suc n) [] h = tt
drop-All P (suc n) (r ∷ rows) (p, h) = drop-All P n rows h

pub take-All :
    (P : RequestRow → Type 0) (n : ℕ) (rows : List RequestRow) → All P rows → All P (take n rows)
take-All P zero rows h = tt
take-All P (suc n) [] h = tt
take-All P (suc n) (r ∷ rows) (p, h) = (p, take-All P n rows h)

insert_newest-IsNewestFirst :
    (r : RequestRow) (rows : List RequestRow)
    → IsNewestFirst rows
    → IsNewestFirst (insert_newest r rows)
unfolding insert_newest
insert_newest-IsNewestFirst r [] h = (tt, tt)
insert_newest-IsNewestFirst r (q ∷ rows) (p, h) =
    elim (Bool-cases (leb q.created_at r.created_at)) [
      | inl e ↦
          let le : q.created_at ≤ r.created_at = ground arith in
          rw e ((le, All-older rows q.created_at r.created_at le p), (p, h))
      | inr e ↦
          let le : r.created_at ≤ q.created_at = ground arith in
          rw e (
            insert_newest-All (λ x. x.created_at ≤ q.created_at) r rows le p,
            insert_newest-IsNewestFirst r rows h,
          )
    ]
  where
    All-older :
        (xs : List RequestRow) (a b : ℕ)
        → a ≤ b
        → All (λ (x : RequestRow). x.created_at ≤ a) xs
        → All (λ (x : RequestRow). x.created_at ≤ b) xs
    All-older [] a b le k = tt
    All-older (x ∷ xs) a b le (m, k) = (omega arith, All-older xs a b le k)

pub newest_first-IsNewestFirst : (rows : List RequestRow) → IsNewestFirst (newest_first rows)
unfolding newest_first
newest_first-IsNewestFirst [] = tt
newest_first-IsNewestFirst (r ∷ rows) =
    insert_newest-IsNewestFirst r (newest_first rows) (newest_first-IsNewestFirst rows)

pub drop-IsNewestFirst :
    (n : ℕ) (rows : List RequestRow) → IsNewestFirst rows → IsNewestFirst (drop n rows)
unfolding drop
drop-IsNewestFirst zero rows h = h
drop-IsNewestFirst (suc n) [] h = tt
drop-IsNewestFirst (suc n) (r ∷ rows) (p, h) = drop-IsNewestFirst n rows h

pub take-IsNewestFirst :
    (n : ℕ) (rows : List RequestRow) → IsNewestFirst rows → IsNewestFirst (take n rows)
take-IsNewestFirst zero rows h = tt
take-IsNewestFirst (suc n) [] h = tt
take-IsNewestFirst (suc n) (r ∷ rows) (p, h) = (take-All _ n rows p, take-IsNewestFirst n rows h)

pub length-take : (n : ℕ) (rows : List RequestRow) → length (take n rows) ≤ n
length-take zero rows = omega arith
length-take (suc n) [] = omega arith
length-take (suc n) (r ∷ rows) = omega (arith, length-take n rows)

insert_newest-IsIn :
    (r q : RequestRow) (rows : List RequestRow) → IsIn q (r ∷ rows) → IsIn q (insert_newest r rows)
unfolding insert_newest
insert_newest-IsIn r q [] h = h
insert_newest-IsIn r q (x ∷ rows) h = elim (Bool-cases (leb x.created_at r.created_at)) [
  | inl e ↦ rw e h
  | inr e ↦ rw e (elim h [
    | inl p ↦ inr (insert_newest-IsIn r q rows (inl p))
    | inr (inl p) ↦ inl p
    | inr (inr k) ↦ inr (insert_newest-IsIn r q rows (inr k))
  ])
]

-- Ordering loses no row.
pub newest_first-IsIn :
    (q : RequestRow) (rows : List RequestRow) → IsIn q rows → IsIn q (newest_first rows)
unfolding newest_first
newest_first-IsIn q [] h = h
newest_first-IsIn q (r ∷ rows) (inl p) = insert_newest-IsIn r q (newest_first rows) (inl p)
newest_first-IsIn q (r ∷ rows) (inr h) =
    insert_newest-IsIn r q (newest_first rows) (inr (newest_first-IsIn q rows h))

length-insert_newest :
    (r : RequestRow) (rows : List RequestRow) → length (insert_newest r rows) ≡ suc (length rows)
unfolding insert_newest
length-insert_newest r [] = refl
length-insert_newest r (x ∷ rows) = elim (Bool-cases (leb x.created_at r.created_at)) [
  | inl e ↦ rw e refl
  | inr e ↦ rw e (ap suc (length-insert_newest r rows))
]

pub length-newest_first : (rows : List RequestRow) → length (newest_first rows) ≡ length rows
unfolding newest_first
length-newest_first [] = refl
length-newest_first (r ∷ rows) =
    length-insert_newest r (newest_first rows) ∙ ap suc (length-newest_first rows)

pub take_whole : (n : ℕ) (rows : List RequestRow) → length rows ≤ n → take n rows ≡ rows
take_whole zero [] h = refl
take_whole zero (r ∷ rows) h = absurd (omega arith)
take_whole (suc n) [] h = refl
take_whole (suc n) (r ∷ rows) h = ap (λ xs. r ∷ xs) (take_whole n rows (omega arith))
