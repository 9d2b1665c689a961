-- ===== src/Accounts.antt =====
-- The accounts: app/api/v1/endpoints/login.py and users.py, app/api/deps.py and
-- app/core/security.py. The table of the users is a list.
pub mod Rows
pub mod Tokens
pub mod Joining
pub mod Changes
mod Tests
use workflow_automation_plat.Common.{
  ℕ, ◌+◌, ◌*◌, String, Bool, true, false, not, Option, none, some, List, [], ◌∷◌, ◌++◌, any, find,
  ◌&&◌, str_eq, if◌then◌else◌,
}
use workflow_automation_plat.Engine.Conditions.{Python}
use workflow_automation_plat.Engine.Process.{Role, User}
use workflow_automation_plat.Rbac.{check_role}

-- What the libraries compute.
pub record Security : Type 0 where
  -- `jwt.encode` of `sub` and `exp`. `jwt.decode` at a time gives `sub`, where there is one; `none`
  -- is an error, also that of a token that has expired.
  pub encode : String → ℕ → String
  pub decode : ℕ → String → Option (Option String)
  -- The UUID that a text stands for; `none` is a ValueError.
  pub as_uuid : String → Option String
  -- `password[:n]` in bytes, `bcrypt.hashpw` of a password and a salt, and `bcrypt.checkpw`, where
  -- `none` is an exception.
  pub first_bytes : ℕ → String → String
  pub hashpw : String → String → String
  pub checkpw : String → String → Option Bool

abbrev pub verify_password : Security → String → String → Bool
verify_password sec plain hashed = elim (sec.checkpw plain hashed) [ none ↦ false | some b ↦ b ]

abbrev pub get_password_hash : Security → String → String → String
get_password_hash sec salt password = sec.hashpw (sec.first_bytes 72 password) salt

abbrev pub create_access_token : Security → ℕ → ℕ → String → String
create_access_token sec now minutes subject = sec.encode subject (now + minutes * 60)

pub data LoginReply : Type 0 where
  -- `access_token` and `role`.
  granted : String → String → LoginReply
  denied : ℕ → LoginReply

abbrev pub primary_role : Python → List Role → String
primary_role py [] = "user"
primary_role py (r ∷ roles) = py.lower r.name

-- `login_access_token` from the query of the user on.
unfoldable pub login_found : Security → Python → ℕ → ℕ → String → Option User → LoginReply
login_found sec py now minutes password none = denied 400
login_found sec py now minutes password (some u) =
    if not (verify_password sec password u.hashed_password)
    then denied 400
    else if not u.is_active
    then denied 400
    else granted (create_access_token sec now minutes u.id) (primary_role py u.roles)

abbrev pub has_email : String → User → Bool
has_email email u = str_eq u.email email

abbrev pub has_id : String → User → Bool
has_id id u = str_eq u.id id

unfoldable pub login_access_token :
    Security → Python → ℕ → ℕ → String → String → List User → LoginReply
unfolding login_found
login_access_token sec py now minutes username password users =
    login_found sec py now minutes password (find (has_email username) users)

-- An answer: a user, or the status of the error.
pub data Answer : Type 0 where
  answer : User → Answer
  error : ℕ → Answer

-- `get_current_user` from the query of the user on, and from the payload of the token on.
unfoldable pub current_found : Option User → Answer
current_found none = error 404
current_found (some u) = if not u.is_active then error 400 else answer u

abbrev pub current_id : Option String → List User → Answer
current_id none users = error 401
current_id (some id) users = current_found (find (has_id id) users)

-- `uuid.UUID(None)` raises a TypeError, which no handler of the function catches.
unfoldable pub current_payload : Security → Option (Option String) → List User → Answer
unfolding current_found
current_payload sec none users = error 401
current_payload sec (some none) users = error 500
current_payload sec (some (some sub)) users = current_id (sec.as_uuid sub) users

unfoldable pub get_current_user : Security → ℕ → String → List User → Answer
unfolding current_payload
get_current_user sec now token users = current_payload sec (sec.decode now token) users

-- `Depends(get_current_user)`: the endpoint runs for the user of the token.
unfoldable pub with_user : Answer → (User → List User × Answer) → List User → List User × Answer
with_user (error n) run users = (users, error n)
with_user (answer u) run users = run u

-- `UserCreate`.
pub record UserIn : Type 0 where
  pub email : String
  pub username : String
  pub full_name : String
  pub password : String
  pub is_active : Bool

abbrev pub new_user : Security → String → String → UserIn → User
new_user sec id salt input = record {
  id = id;
  email = input.email;
  username = input.username;
  full_name = input.full_name;
  hashed_password = get_password_hash sec salt input.password;
  is_active = input.is_active;
  roles = [];
}

-- `create_user`. The column `username` is unique, so that the commit of a second one fails.
unfoldable pub create_user_as :
    Security → Python → String → String → UserIn → List User → User → List User × Answer
create_user_as sec py id salt input users me =
    if not (check_role py me "admin")
    then (users, error 403)
    else if any (has_email input.email) users
    then (users, error 400)
    else if any (λ (u : User). str_eq u.username input.username) users
    then (users, error 500)
    else (users ++ new_user sec id salt input ∷ [], answer (new_user sec id salt input))

unfoldable pub create_user :
    Security → Python → ℕ → String → String → String → UserIn → List User → List User × Answer
unfolding create_user_as with_user
create_user sec py now token id salt input users =
    with_user (get_current_user sec now token users) (create_user_as sec py id salt input users)
      users

-- The row of the user's identifier, as another.
unfoldable pub set_user : User → List User → List User
set_user row [] = []
set_user row (u ∷ users) = if str_eq u.id row.id then row ∷ users else u ∷ set_user row users

abbrev pub or_else : Option String → String → String
or_else none s = s
or_else (some t) s = t

-- The row that `update_user_me` saves.
abbrev pub updated : Security → String → Option String → Option String → Option String → User → User
updated sec salt password full_name email me = record me {
  email = or_else email me.email;
  full_name = or_else full_name me.full_name;
  hashed_password = elim password [
    | none ↦ me.hashed_password
    | some p ↦ get_password_hash sec salt p
  ];
}

-- Whether a user has the address already who is not `me`.
abbrev pub is_taken : Option User → User → Bool
is_taken none me = false
is_taken (some u) me = not (str_eq u.id me.id)

-- `update_user_me`.
unfoldable pub update_user_me_as :
    Security
    → String
    → Option String
    → Option String
    → Option String
    → List User
    → User
    → List User × Answer
unfolding set_user
update_user_me_as sec salt password full_name email users me =
    let row = updated sec salt password full_name email me in
    if is_taken (find (has_email row.email) users) me
    then (users, error 409)
    else (set_user row users, answer row)

unfoldable pub update_user_me :
    Security
    → ℕ
    → String
    → String
    → Option String
    → Option String
    → Option String
    → List User
    → List User × Answer
unfolding update_user_me_as with_user
update_user_me sec now token salt password full_name email users =
    with_user (get_current_user sec now token users)
      (update_user_me_as sec salt password full_name email users) users
