-- ===== src/Rbac/Tests.antt =====
-- The checks for a user with one role.
use workflow_automation_plat.Common.{
  ◌≡◌, ◌↔◌, ◌⊎◌, refl, String, true, false, some, none, List, [], ◌∷◌, IsIn, str_eq, if◌then◌else◌,
}
use workflow_automation_plat.Engine.Conditions.{Python}
use workflow_automation_plat.Engine.Process.{User, WorkflowStep, role_missing}
use workflow_automation_plat.Engine.Step.{is_admin, meets, role_ids, refusal}
use workflow_automation_plat.Rbac.{has_permission, has_role, check_permissions, check_role}
use workflow_automation_plat.Rbac.Access.{check_permissions_lem, check_role-admin}

abbrev lower_python : Python
lower_python = record {
  Float = Unit;
  to_float = λ v. none;
  float_gt = λ a b. false;
  float_ge = λ a b. false;
  equal = λ a b. false;
  is_in = λ a b. none;
  split_dots = λ s. s ∷ [];
  upper = λ s. s;
  lower = λ s. if str_eq s "ADMIN" then "admin" else s;
}

abbrev auditor : User
auditor = record {
  id = "u1";
  email = "auditor@example.com";
  username = "auditor";
  full_name = "Auditor";
  hashed_password = "h";
  is_active = true;
  roles =
      record {
        id = "r1";
        name = "superadmin";
        permissions = record { id = "p1"; name = "read_audit" } ∷ [];
      }
      ∷ [];
}

abbrev both : List String
both = "read_audit" ∷ "manage_users" ∷ []

check_permissions_lem_example :
    ((check_permissions auditor both ≡ none)
      ↔ ((name : String) → IsIn name both → has_permission auditor name ≡ true))
    × ((names : List String)
        → check_permissions auditor both ≡ some names
        → (name : String)
        → IsIn name names ↔ (IsIn name both × (has_permission auditor name ≡ false)))
check_permissions_lem_example = check_permissions_lem auditor both

check_role-admin_example :
    ((check_role lower_python auditor "admin" ≡ true) ↔ (
      (is_admin lower_python auditor ≡ true) ⊎ (has_role lower_python auditor "superadmin" ≡ true)))
    × ((step : WorkflowStep)
        → has_role lower_python auditor "superadmin" ≡ true
        → is_admin lower_python auditor ≡ false
        → meets step.required_role_id (role_ids auditor.roles) ≡ false
        → (check_role lower_python auditor "admin" ≡ true)
          × (refusal lower_python auditor step ≡ some role_missing))
check_role-admin_example = check_role-admin lower_python auditor refl refl
