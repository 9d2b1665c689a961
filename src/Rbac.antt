-- ===== src/Rbac.antt =====
-- app/services/rbac.py: what a user's roles and permissions let them do.
pub mod Access
mod Tests
use workflow_automation_plat.Common.{
  ℕ, String, Bool, true, false, not, Option, none, some, List, [], ◌∷◌, ◌++◌, map, any, keep,
  length, ◌==◌, ◌||◌, ◌&&◌, str_eq, if◌then◌else◌,
}
use workflow_automation_plat.Engine.Conditions.{Python}
use workflow_automation_plat.Engine.Process.{Permission, Role, User}

-- `has_permission`.
unfoldable pub has_permission : User → String → Bool
has_permission user name =
    any (λ (r : Role). any (λ (p : Permission). str_eq p.name name) r.permissions) user.roles

-- `has_role`.
unfoldable pub has_role : Python → User → String → Bool
has_role py user name = any (λ (r : Role). str_eq (py.lower r.name) (py.lower name)) user.roles

-- `get_user_permissions`, as a list: only what is in it is asked.
unfoldable pub permission_names : List Role → List String
permission_names [] = []
permission_names (r ∷ rs) = map (λ (p : Permission). p.name) r.permissions ++ permission_names rs

-- `[p for p in required_permissions if p not in user_perms]`.
unfoldable pub missing : User → List String → List String
unfolding permission_names
missing user required =
    keep (λ p. not (any (λ q. str_eq q p) (permission_names user.roles))) required

-- `check_permissions`: the permissions that its exception names, if it raises one.
unfoldable pub check_permissions : User → List String → Option (List String)
unfolding missing
check_permissions user required =
    if length (missing user required) == 0 then none else some (missing user required)

abbrev pub admin_variants : List String
admin_variants = "admin" ∷ "ADMIN" ∷ "superadmin" ∷ []

-- `check_role`: whether it returns.
unfoldable pub check_role : Python → User → String → Bool
unfolding has_role
check_role py user required =
    if str_eq (py.lower required) "admin" && any (has_role py user) admin_variants
    then true
    else has_role py user required
