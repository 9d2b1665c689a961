-- ===== src/Accounts/Joining.antt =====
-- From the creation of an account to its first login.
use workflow_automation_plat.Common.{
  ℕ, ◌≡◌, refl, sym, ap, ◌∙◌, String, Bool, true, false, none, some, List, [], ◌∷◌, ◌++◌,
  find-append, any, Bool-cases, str_eq, eq_refl, if◌then◌else◌, inl, inr,
}
use mathlib.Core.Bool.{false≢true}
use workflow_automation_plat.Engine.Conditions.{Python}
use workflow_automation_plat.Engine.Process.{User}
use workflow_automation_plat.Rbac.{check_role}
use workflow_automation_plat.Accounts.{
  Security, granted, denied, verify_password, get_password_hash, create_access_token, login_found,
  login_access_token, has_email, Answer, answer, error, get_current_user, with_user, UserIn,
  new_user, create_user_as, create_user,
}
use workflow_automation_plat.Accounts.Rows.{any_missed}

abbrev pub is_answer : Answer → Bool
is_answer (answer u) = true
is_answer (error n) = false

-- An endpoint that answers has run for the user of the token.
pub with_user_lem :
    (a : Answer) (run : User → List User × Answer) (users : List User)
    → is_answer (with_user a run users).1 ≡ true
    → (me : User) × (a ≡ answer me) × (with_user a run users ≡ run me)
unfolding with_user
with_user_lem (error n) run users e = absurd (false≢true e)
with_user_lem (answer me) run users e = (me, refl, refl)

module _ (sec : Security) (py : Python) (id salt : String) (input : UserIn)
    (users : List User) where
  -- An administrator has created the account, and no other has its address or its name.
  pub create_user_as_lem :
      (me : User)
      → is_answer (create_user_as sec py id salt input users me).1 ≡ true
      → (check_role py me "admin" ≡ true)
        × (any (has_email input.email) users ≡ false)
        × (any (λ (u : User). str_eq u.username input.username) users ≡ false)
        × (create_user_as sec py id salt input users me
            ≡ (users ++ new_user sec id salt input ∷ [], answer (new_user sec id salt input)))
  unfolding create_user_as
  create_user_as_lem me e = elim (Bool-cases (check_role py me "admin")) [
    | inr f ↦ absurd (false≢true (rw f at e))
    | inl f ↦ elim (Bool-cases (any (has_email input.email) users)) [
      | inl g ↦ absurd (false≢true (rw (f, g) at e))
      | inr g ↦ elim (Bool-cases (any (λ (u : User). str_eq u.username input.username) users)) [
        | inl h ↦ absurd (false≢true (rw (f, g, h) at e))
        | inr h ↦ (f, g, h, rw (f, g, h) refl)
      ]
    ]
  ]

  login_new :
      (later minutes : ℕ)
      → sec.checkpw input.password (get_password_hash sec salt input.password) ≡ some true
      → login_found sec py later minutes input.password (some (new_user sec id salt input)) ≡ (
          if input.is_active
          then granted (create_access_token sec later minutes id) "user"
          else denied 400)
  unfolding login_found
  login_new later minutes matches =
      let verified : verify_password sec input.password (get_password_hash sec salt input.password)
          ≡ true =
        ap (λ o. elim o [ none ↦ false | some b ↦ b ]) matches in
      elim (Bool-cases input.is_active) [
        | inl a ↦ rw (verified, a) refl
        | inr a ↦ rw (verified, a) refl
      ]

  -- Whoever creates an account is an active administrator at that time. The address of the new
  -- account with its password is then granted a token of the account, as a "user", if it was
  -- created as active, and refused with 400 otherwise. The password is assumed to match its hash.
  pub create_user-login :
      (now later minutes : ℕ) (token : String)
      → is_answer (create_user sec py now token id salt input users).1 ≡ true
      → sec.checkpw input.password (get_password_hash sec salt input.password) ≡ some true
      → ((me : User) × (get_current_user sec now token users ≡ answer me)
          × (check_role py me "admin" ≡ true))
        × (login_access_token sec py later minutes input.email input.password
              (create_user sec py now token id salt input users).0
            ≡ (if input.is_active
                then granted (create_access_token sec later minutes id) "user"
                else denied 400))
  unfolding create_user login_access_token
  create_user-login now later minutes token e matches =
      let (me, current, same) =
        with_user_lem (get_current_user sec now token users)
          (create_user_as sec py id salt input users) users e in
      let (admin, free, _, made) =
        create_user_as_lem me (ap is_answer (ap (λ p. p.1) (sym same)) ∙ e) in
      (
        (me, current, admin),
        rw
            (
              same,
              made,
              find-append (has_email input.email) users (new_user sec id salt input ∷ [])
                  (any_missed _ users free),
              eq_refl input.email,
            )
            (login_new later minutes matches),
      )
