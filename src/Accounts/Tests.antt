-- ===== src/Accounts/Tests.antt =====
-- The theorems for an administrator and a new account, with tokens that write out their expiry.
use workflow_automation_plat.Common.{
  ℕ, zero, suc, ◌+◌, ◌*◌, ◌≡◌, ◌≤◌, ◌<◌, refl, arith, eq_iff, String, true, Option, none, some,
  List, [], ◌∷◌, All, IsIn, str_eq, ◌==◌, if◌then◌else◌,
}
use Prim.Native.Char.{code}
use workflow_automation_plat.Engine.Process.{User}
use workflow_automation_plat.Rbac.{check_role, has_role}
use workflow_automation_plat.Accounts.{
  Security, granted, verify_password, create_access_token, primary_role, login_found,
  login_access_token, answer, error, current_found, current_payload, get_current_user, with_user,
  UserIn, create_user_as, create_user, update_user_me,
}
use workflow_automation_plat.Accounts.Rows.{AreDistinct}
use workflow_automation_plat.Accounts.Tokens.{Decodes, Expires, login_access_token_lem}
use workflow_automation_plat.Accounts.Joining.{create_user-login}
use workflow_automation_plat.Accounts.Changes.{
  IsAccountTable, IsFrom, created, changed, start, next, Reaches-IsAccountTable,
}
use workflow_automation_plat.Engine.Samples.{plain_python}

-- One "1" for each second, then "0" and the subject.
abbrev encode : String → ℕ → String
encode sub zero = String.◌∷◌ "0" sub
encode sub (suc e) = String.◌∷◌ "1" (encode sub e)

abbrev decode : ℕ → String → Option (Option String)
decode now String.[] = none
decode zero (String.◌∷◌ c s) =
    let rest = decode zero s in if code c == 49 then rest else some (some s)
decode (suc now) (String.◌∷◌ c s) = let rest = decode now s in if code c == 49 then rest else none

abbrev plain_security : Security
plain_security = record {
  encode = encode;
  decode = decode;
  as_uuid = λ s. some s;
  first_bytes = λ n s. s;
  hashpw = λ p salt. p;
  checkpw = λ p h. some (str_eq p h);
}

plain_security-Decodes : Decodes plain_security
plain_security-Decodes sub zero zero le = refl
plain_security-Decodes sub zero (suc now) le = absurd (omega arith)
plain_security-Decodes sub (suc e) zero le = plain_security-Decodes sub e zero (omega arith)
plain_security-Decodes sub (suc e) (suc now) le = plain_security-Decodes sub e now (omega arith)

plain_security-Expires : Expires plain_security
plain_security-Expires sub zero zero lt = absurd (omega arith)
plain_security-Expires sub zero (suc now) lt = refl
plain_security-Expires sub (suc e) zero lt = absurd (omega arith)
plain_security-Expires sub (suc e) (suc now) lt = plain_security-Expires sub e now (omega arith)

abbrev admin : User
admin = record {
  id = "u1";
  email = "admin@example.com";
  username = "admin";
  full_name = "Admin";
  hashed_password = "secret12";
  is_active = true;
  roles = record { id = "r1"; name = "admin"; permissions = [] } ∷ [];
}

abbrev admin_only : List User
admin_only = admin ∷ []

abbrev admin_token : String
admin_token = encode "u1" 3

abbrev ada : UserIn
ada = record {
  email = "ada@example.com";
  username = "ada";
  full_name = "Ada";
  password = "password";
  is_active = true;
}

login_access_token_lem_example :
    (u : User) × IsIn u admin_only
    × (u.email ≡ "admin@example.com")
    × (u.is_active ≡ true)
    × (verify_password plain_security "secret12" u.hashed_password ≡ true)
    × ("admin" ≡ primary_role plain_python u.roles)
    × ((later : ℕ) (users' : List User) (v : User)
        → AreDistinct (λ w. w.id) users'
        → later ≤ 5 + 30 * 60
        → IsIn v users'
        → v.id ≡ u.id
        → get_current_user plain_security later
            (create_access_token plain_security 5 30 "u1")
            users'
          ≡ (if v.is_active then answer v else error 400))
    × ((later : ℕ) (users' : List User)
        → 5 + 30 * 60 < later
        → get_current_user plain_security later
            (create_access_token plain_security 5 30 "u1")
            users'
          ≡ error 401)
login_access_token_lem_example =
    login_access_token_lem plain_security plain_python 5 30 "secret12" "admin@example.com"
      admin_only plain_security-Decodes plain_security-Expires (refl, tt)
      (unfold login_access_token login_found in refl)

create_user-login_example :
    ((me : User) × (get_current_user plain_security 2 admin_token admin_only ≡ answer me)
      × (check_role plain_python me "admin" ≡ true))
    × (login_access_token plain_security plain_python 9 30 "ada@example.com" "password"
          (create_user plain_security plain_python 2 admin_token "u2" "s" ada admin_only).0
        ≡ granted (create_access_token plain_security 9 30 "u2") "user")
create_user-login_example =
    create_user-login plain_security plain_python "u2" "s" ada admin_only 2 9 30 admin_token
      (unfold create_user create_user_as with_user get_current_user current_payload current_found
          check_role has_role in
        refl)
      refl

abbrev two_users : List User
two_users = (create_user plain_security plain_python 2 admin_token "u2" "s" ada admin_only).0

abbrev renamed_users : List User
renamed_users =
    (update_user_me plain_security 2 admin_token "s" none (some "Grace") none two_users).0

Reaches-IsAccountTable_example :
    IsAccountTable renamed_users × All (IsFrom admin_only) renamed_users
Reaches-IsAccountTable_example =
    Reaches-IsAccountTable plain_security plain_python admin_only ((tt, tt), (tt, tt), (tt, tt))
      (next (next start (created 2 admin_token "u2" "s" ada (ground (arith, eq_iff "u1" "u2"), tt)))
        (changed 2 admin_token "s" none (some "Grace") none))
