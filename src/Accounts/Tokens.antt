-- ===== src/Accounts/Tokens.antt =====
-- What a login grants, and whom its token stands for later.
use workflow_automation_plat.Common.{
  ℕ, ◌+◌, ◌*◌, ◌≡◌, ◌≤◌, ◌<◌, refl, sym, ap, subst, ◌∙◌, arith, String, Bool, true, false, Option,
  none, some, List, All, IsIn, All-IsIn, find, Bool-cases, Option-cases, eq_iff, eq_refl,
  if◌then◌else◌, inl, inr,
}
use mathlib.Core.Bool.{false≢true}
use workflow_automation_plat.Engine.Conditions.{Python}
use workflow_automation_plat.Engine.Process.{User}
use workflow_automation_plat.Accounts.{
  Security, LoginReply, granted, denied, verify_password, create_access_token, primary_role,
  login_found, login_access_token, has_email, has_id, answer, error, current_found, current_payload,
  get_current_user,
}
use workflow_automation_plat.Accounts.Rows.{find_found, find_missed, AreDistinct, AreDistinct-same}

-- A token gives back its subject until it expires, and nothing after that.
abbrev pub Decodes : Security → Type 0
Decodes sec =
    (sub : String) (exp now : ℕ) → now ≤ exp → sec.decode now (sec.encode sub exp) ≡ some (some sub)

abbrev pub Expires : Security → Type 0
Expires sec = (sub : String) (exp now : ℕ) → exp < now → sec.decode now (sec.encode sub exp) ≡ none

-- The identifiers are UUIDs in the form in which they are printed.
abbrev pub AreUuids : Security → List User → Type 0
AreUuids sec users = All (λ (u : User). sec.as_uuid u.id ≡ some u.id) users

pub find-id :
    (users : List User) (v : User)
    → AreDistinct (λ u. u.id) users
    → IsIn v users
    → find (has_id v.id) users ≡ some v
find-id users v d i = elim (Option-cases (find (has_id v.id) users)) [
  | inl e ↦
      absurd
        (false≢true (sym (All-IsIn _ users v (find_missed (has_id v.id) users e) i) ∙ eq_refl v.id))
  | inr (w, e) ↦
      let (j, q) = find_found (has_id v.id) users e in
      let same : w.id ≡ v.id = ground (arith, eq_iff w.id v.id) in
      e ∙ ap some (AreDistinct-same (λ u. u.id) users w v d j i same)
]

abbrev is_granted : LoginReply → Bool
is_granted (granted t r) = true
is_granted (denied n) = false

abbrev token_of : LoginReply → String
token_of (granted t r) = t
token_of (denied n) = ""

abbrev role_of : LoginReply → String
role_of (granted t r) = r
role_of (denied n) = ""

module _ (sec : Security) (py : Python) (now minutes : ℕ) (password : String) where
  login_found_lem :
      (o : Option User) {t r : String}
      → login_found sec py now minutes password o ≡ granted t r
      → (u : User) × (o ≡ some u)
        × (verify_password sec password u.hashed_password ≡ true)
        × (u.is_active ≡ true)
        × (t ≡ create_access_token sec now minutes u.id)
        × (r ≡ primary_role py u.roles)
  unfolding login_found
  login_found_lem none e = absurd (false≢true (ap is_granted e))
  login_found_lem (some u) e = elim (Bool-cases (verify_password sec password u.hashed_password)) [
    | inr f ↦ absurd (false≢true (ap is_granted (rw f at e)))
    | inl f ↦ elim (Bool-cases u.is_active) [
      | inr g ↦ absurd (false≢true (ap is_granted (rw (f, g) at e)))
      | inl g ↦
          let h : granted _ _ ≡ granted _ _ = rw (f, g) at e in
          (u, refl, f, g, ap token_of (sym h), ap role_of (sym h))
    ]
  ]

  current_of_token :
      (later : ℕ) (users' : List User) (u v : User)
      → Decodes sec
      → sec.as_uuid u.id ≡ some u.id
      → AreDistinct (λ w. w.id) users'
      → later ≤ now + minutes * 60
      → IsIn v users'
      → v.id ≡ u.id
      → get_current_user sec later (create_access_token sec now minutes u.id) users'
        ≡ (if v.is_active then answer v else error 400)
  unfolding get_current_user current_payload current_found
  current_of_token later users' u v d uuid distinct le i e =
      rw
        (
          d u.id (now + minutes * 60) later le,
          uuid,
          subst (λ n. find (has_id n) users' ≡ some v) e (find-id users' v distinct i),
        )
        (elim (Bool-cases v.is_active) [ inl a ↦ rw a refl | inr a ↦ rw a refl ])

  expired_token :
      (later : ℕ) (users' : List User) (u : User)
      → Expires sec
      → now + minutes * 60 < later
      → get_current_user sec later (create_access_token sec now minutes u.id) users' ≡ error 401
  unfolding get_current_user current_payload
  expired_token later users' u x lt = rw (x u.id (now + minutes * 60) later lt) refl

  -- A login is granted only to an active account of that address with that password, with the role
  -- that comes first. Until the minutes are over, and however the table has changed, the token
  -- stands for the row with the identifier of that account, if the row is active, and is refused
  -- with 400 if it is not; after that it is refused with 401. Tokens are assumed to give back their
  -- subject until they expire and identifiers to be distinct and UUIDs.
  pub login_access_token_lem :
      (username : String) (users : List User) {t r : String}
      → Decodes sec
      → Expires sec
      → AreUuids sec users
      → login_access_token sec py now minutes username password users ≡ granted t r
      → (u : User) × IsIn u users
        × (u.email ≡ username)
        × (u.is_active ≡ true)
        × (verify_password sec password u.hashed_password ≡ true)
        × (r ≡ primary_role py u.roles)
        × ((later : ℕ) (users' : List User) (v : User)
            → AreDistinct (λ w. w.id) users'
            → later ≤ now + minutes * 60
            → IsIn v users'
            → v.id ≡ u.id
            → get_current_user sec later t users' ≡ (if v.is_active then answer v else error 400))
        × ((later : ℕ) (users' : List User)
            → now + minutes * 60 < later
            → get_current_user sec later t users' ≡ error 401)
  unfolding login_access_token
  login_access_token_lem username users {t} {r} d x uuids e =
      let (u, found, verified, active, same, role) =
        login_found_lem (find (has_email username) users) e in
      let (i, q) = find_found (has_email username) users found in
      (
        u,
        i,
        ground (arith, eq_iff u.email username),
        active,
        verified,
        role,
        (λ later users' v distinct le j f.
            ap (λ s. get_current_user sec later s users') same
            ∙ current_of_token later users' u v d (All-IsIn _ users u uuids i) distinct le j f),
        λ later users' lt.
            ap (λ s. get_current_user sec later s users') same ∙ expired_token later users' u x lt,
      )
