-- ===== src/Accounts/Changes.antt =====
-- What the endpoints of the accounts do to the table, in any order of calls.
use workflow_automation_plat.Common.{
  ℕ, ◌≡◌, ◌≢◌, ◌⊎◌, refl, sym, ap, subst, ◌∙◌, arith, String, Bool, true, false, not, Option, none,
  some, List, [], ◌∷◌, ◌++◌, All, All-IsIn, All-append, All-from, IsIn, find, any, Bool-cases,
  Option-cases, str_eq, eq_iff, if◌then◌else◌, inl, inr,
}
use mathlib.Core.Bool.{false≢true}
use workflow_automation_plat.Engine.Conditions.{Python}
use workflow_automation_plat.Engine.Process.{User}
use workflow_automation_plat.Rbac.{check_role}
use workflow_automation_plat.Accounts.{
  Security, has_email, has_id, Answer, answer, error, current_found, current_payload,
  get_current_user, with_user, UserIn, new_user, create_user_as, create_user, set_user, updated,
  is_taken, update_user_me_as, update_user_me,
}
use workflow_automation_plat.Accounts.Rows.{
  find_found, find_missed, any_missed, AreDistinct, AreDistinct-append, AreDistinct-same,
  set_user-All, set_user-AreDistinct,
}
use workflow_automation_plat.Accounts.Joining.{is_answer}

-- No two accounts have the same identifier, address or name.
abbrev pub IsAccountTable : List User → Type 0
IsAccountTable users =
    AreDistinct (λ u. u.id) users
    × AreDistinct (λ u. u.email) users
    × AreDistinct (λ u. u.username) users

-- The account has no roles, or those that it had, active as it was.
abbrev pub IsFrom : List User → User → Type 0
IsFrom before u =
    (u.roles ≡ [])
    ⊎ ((v : User) × IsIn v before
        × (v.id ≡ u.id)
        × (v.roles ≡ u.roles)
        × (v.is_active ≡ u.is_active))

module _ (Q : List User → Type 0) (users : List User) (here : Q users) where
  with_user-keeps :
      (a : Answer) (run : User → List User × Answer)
      → ((me : User) → a ≡ answer me → Q (run me).0)
      → Q (with_user a run users).0
  unfolding with_user
  with_user-keeps (error n) run k = here
  with_user-keeps (answer me) run k = k me refl

  create_user_as-keeps :
      (sec : Security) (py : Python) (id salt : String) (input : UserIn) (me : User)
      → (any (has_email input.email) users ≡ false
          → any (λ (u : User). str_eq u.username input.username) users ≡ false
          → Q (users ++ new_user sec id salt input ∷ []))
      → Q (create_user_as sec py id salt input users me).0
  unfolding create_user_as
  create_user_as-keeps sec py id salt input me k = elim (Bool-cases (check_role py me "admin")) [
    | inr f ↦ rw f here
    | inl f ↦ elim (Bool-cases (any (has_email input.email) users)) [
      | inl g ↦ rw (f, g) here
      | inr g ↦ elim (Bool-cases (any (λ (u : User). str_eq u.username input.username) users)) [
        | inl h ↦ rw (f, g, h) here
        | inr h ↦ rw (f, g, h) (k g h)
      ]
    ]
  ]

  update_user_me_as-keeps :
      (sec : Security) (salt : String) (password full_name email : Option String) (me : User)
      → (let row = updated sec salt password full_name email me in
          is_taken (find (has_email row.email) users) me ≡ false → Q (set_user row users))
      → Q (update_user_me_as sec salt password full_name email users me).0
  unfolding update_user_me_as
  update_user_me_as-keeps sec salt password full_name email me k =
      let row = updated sec salt password full_name email me in
      elim (Bool-cases (is_taken (find (has_email row.email) users) me)) [
        | inl f ↦ rw f here
        | inr f ↦ rw f (k f)
      ]

answered_same :
    (u me : User) (b : Bool) → (if not b then error 400 else answer u) ≡ answer me → u ≡ me
answered_same u me true e = ap (λ x. elim x [ answer w ↦ w | error n ↦ u ]) e
answered_same u me false e = absurd (false≢true (ap is_answer e))

-- The user of a token is in the table.
found-IsIn :
    (p : User → Bool) (users : List User) (me : User)
    → current_found (find p users) ≡ answer me
    → IsIn me users
unfolding current_found
found-IsIn p users me e = elim (Option-cases (find p users)) [
  | inl f ↦ absurd (false≢true (ap is_answer (rw f at e)))
  | inr (u, f) ↦
      subst (λ w. IsIn w users) (answered_same u me u.is_active (rw f at e))
        (find_found p users f).0
]

payload-IsIn :
    (sec : Security) (o : Option (Option String)) (users : List User) (me : User)
    → current_payload sec o users ≡ answer me
    → IsIn me users
unfolding current_payload
payload-IsIn sec none users me e = absurd (false≢true (ap is_answer e))
payload-IsIn sec (some none) users me e = absurd (false≢true (ap is_answer e))
payload-IsIn sec (some (some sub)) users me e = elim (Option-cases (sec.as_uuid sub)) [
  | inl f ↦ absurd (false≢true (ap is_answer (rw f at e)))
  | inr (id, f) ↦ found-IsIn (has_id id) users me (rw f at e)
]

get_current_user-IsIn :
    (sec : Security) (now : ℕ) (token : String) (users : List User) (me : User)
    → get_current_user sec now token users ≡ answer me
    → IsIn me users
unfolding get_current_user
get_current_user-IsIn sec now token users me e = payload-IsIn sec (sec.decode now token) users me e

free_value :
    (f : User → String) (s : String) (users : List User)
    → All (λ u. str_eq (f u) s ≡ false) users
    → All (λ u. f u ≢ s) users
free_value f s [] h = tt
free_value f s (u ∷ users) (e, h) = (ground (arith, eq_iff (f u) s), free_value f s users h)

created-IsAccountTable :
    (sec : Security) (id salt : String) (input : UserIn) (users : List User)
    → All (λ (u : User). u.id ≢ id) users
    → IsAccountTable users
    → any (has_email input.email) users ≡ false
    → any (λ (u : User). str_eq u.username input.username) users ≡ false
    → IsAccountTable (users ++ new_user sec id salt input ∷ [])
created-IsAccountTable sec id salt input users fresh (a, b, c) e f =
    let row = new_user sec id salt input in
    (
      AreDistinct-append (λ u. u.id) users row a fresh,
      AreDistinct-append (λ u. u.email) users row b
          (free_value (λ u. u.email) input.email users (any_missed _ users e)),
      AreDistinct-append (λ u. u.username) users row c
          (free_value (λ u. u.username) input.username users (any_missed _ users f)),
    )

-- Whoever has the address that is not taken is the user.
untaken :
    (email : String) (users : List User) (me v : User)
    → AreDistinct (λ u. u.email) users
    → IsIn v users
    → v.email ≡ email
    → is_taken (find (has_email email) users) me ≡ false
    → v.id ≡ me.id
untaken email users me v d i e free = elim (Option-cases (find (has_email email) users)) [
  | inl f ↦
      let off : str_eq v.email email ≡ false =
        All-IsIn _ users v (find_missed (has_email email) users f) i in
      absurd (ground (arith, eq_iff v.email email))
  | inr (u, f) ↦
      let (j, q) = find_found (has_email email) users f in
      let owner : u.email ≡ email = ground (arith, eq_iff u.email email) in
      let same : v ≡ u = AreDistinct-same (λ w. w.email) users v u d i j (e ∙ sym owner) in
      let mine : not (str_eq u.id me.id) ≡ false = rw f at free in
      let equal : u.id ≡ me.id = ground (arith, eq_iff u.id me.id) in
      ap (λ (w : User). w.id) same ∙ equal
]

updated-IsAccountTable :
    (sec : Security) (salt : String) (password full_name email : Option String) (users : List User)
    (me : User)
    → IsIn me users
    → IsAccountTable users
    → (let row = updated sec salt password full_name email me in
        is_taken (find (has_email row.email) users) me ≡ false
        → IsAccountTable (set_user row users))
updated-IsAccountTable sec salt password full_name email users me i (a, b, c) free =
    let row = updated sec salt password full_name email me in
    (
      set_user-AreDistinct (λ u. u.id) row users a a (λ v j n. n),
      set_user-AreDistinct (λ u. u.email) row users a b
          (λ v j n e. n (untaken row.email users me v b j e free)),
      set_user-AreDistinct (λ u. u.username) row users a c
          (λ v j n e.
            n (ap (λ (w : User). w.id) (AreDistinct-same (λ u. u.username) users v me c j i e))),
    )

-- What the endpoints do: an account is created under a new identifier, or its owner changes it.
pub data Happens (sec : Security) (py : Python) (users : List User) : List User → Type 0 where
  created :
      (now : ℕ) (token id salt : String) (input : UserIn)
      → All (λ (u : User). u.id ≢ id) users
      → Happens sec py users (create_user sec py now token id salt input users).0
  changed :
      (now : ℕ) (token salt : String) (password full_name email : Option String)
      → Happens sec py users (update_user_me sec now token salt password full_name email users).0

pub data Reaches (sec : Security) (py : Python) (before : List User) : List User → Type 0 where
  start : Reaches sec py before before
  next : {a b : List User} → Reaches sec py before a → Happens sec py a b → Reaches sec py before b

Happens-IsKept :
    (sec : Security) (py : Python) (before : List User) {a b : List User}
    → Happens sec py a b
    → IsAccountTable a × All (IsFrom before) a
    → IsAccountTable b × All (IsFrom before) b
unfolding create_user update_user_me
Happens-IsKept sec py before {a} (created now token id salt input fresh) (s, h) =
    let Q = λ (us : List User). IsAccountTable us × All (IsFrom before) us in
    with_user-keeps Q a (s, h) (get_current_user sec now token a) _
      (λ me e.
        create_user_as-keeps Q a (s, h) sec py id salt input me
          (λ f g. (
            created-IsAccountTable sec id salt input a fresh s f g,
            All-append (IsFrom before) a (_ ∷ []) h (inl refl, tt),
          )))
Happens-IsKept sec py before {a} (changed now token salt password full_name email) (s, h) =
    let Q = λ (us : List User). IsAccountTable us × All (IsFrom before) us in
    with_user-keeps Q a (s, h) (get_current_user sec now token a) _
      (λ me e.
        let i = get_current_user-IsIn sec now token a me e in
        update_user_me_as-keeps Q a (s, h) sec salt password full_name email me
          (λ free. (
            updated-IsAccountTable sec salt password full_name email a me i s free,
            set_user-All (IsFrom before) _ a (All-IsIn (IsFrom before) a me h i) h,
          )))

-- Whatever calls are made, in any order: if at first no two accounts have the same identifier,
-- address or name, then this stays so; and no account has a role that it did not have at first,
-- nor is one that has roles activated or deactivated. New identifiers are assumed to be new.
pub Reaches-IsAccountTable :
    (sec : Security) (py : Python) (before : List User) {users : List User}
    → IsAccountTable before
    → Reaches sec py before users
    → IsAccountTable users × All (IsFrom before) users
Reaches-IsAccountTable sec py before s start =
    (s, All-from (IsFrom before) before (λ u i. inr (u, i, refl, refl, refl)))
Reaches-IsAccountTable sec py before s (next r h) =
    Happens-IsKept sec py before h (Reaches-IsAccountTable sec py before s r)
