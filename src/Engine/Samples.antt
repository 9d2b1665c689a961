-- ===== src/Engine/Samples.antt =====
-- What the examples share: a Python whose texts have one case and whose values do not compare, and a
-- clerk.
use workflow_automation_plat.Common.{ℕ, true, false, none, [], ◌∷◌}
use workflow_automation_plat.Engine.Conditions.{Python}
use workflow_automation_plat.Engine.Process.{User}

abbrev pub plain_python : Python
plain_python = record {
  Float = ℕ;
  to_float = λ v. none;
  float_gt = λ a b. false;
  float_ge = λ a b. false;
  equal = λ a b. false;
  is_in = λ a b. none;
  split_dots = λ s. s ∷ [];
  upper = λ s. s;
  lower = λ s. s;
}

abbrev pub clerk : User
clerk = record {
  id = "u1";
  email = "clerk@example.com";
  username = "clerk";
  full_name = "Clerk";
  hashed_password = "h";
  is_active = true;
  roles = record { id = "clerk"; name = "Clerk"; permissions = [] } ∷ [];
}
