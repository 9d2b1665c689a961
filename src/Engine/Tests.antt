-- ===== src/Engine/Tests.antt =====
-- A request for two steps, and the theorems at it.
use workflow_automation_plat.Common.{
  ℕ, ◌≡◌, refl, true, false, none, some, [], ◌∷◌, inl, str_eq, if◌then◌else◌,
}
use workflow_automation_plat.Js.{end}
use workflow_automation_plat.Tasks.{approve, action_text}
use workflow_automation_plat.Lifecycle.{RequestStatus}
use workflow_automation_plat.Engine.Conditions.{Python, evaluate}
use workflow_automation_plat.Engine.Process.{
  Catalog, WorkflowStep, User, RequestStep, Instance, done, new_instance, current_exec, enter,
  log_action, pending,
}
use workflow_automation_plat.Engine.Step.{process_step, refusal, make_decision, refused}
use workflow_automation_plat.Engine.Progress.{IsActive, decided}
use workflow_automation_plat.Engine.Decision.{
  IsAuthorized, process_step-IsAuthorized, make_decision-refused,
}

abbrev plain_python : Python
plain_python = record {
  Float = ℕ;
  to_float = λ v. none;
  float_gt = λ a b. false;
  float_ge = λ a b. false;
  equal = λ a b. false;
  is_in = λ a b. none;
  split_dots = λ s. s ∷ [];
  upper = λ s. if str_eq s "approve" then "APPROVE" else "REJECT";
  lower = λ s. s;
}

abbrev step_of : ℕ → WorkflowStep
step_of n = record {
  id = n;
  workflow_id = 1;
  step_order = n;
  sla_hours = 24;
  required_role_id = some "clerk";
  required_permission_id = none;
}

abbrev two_steps : Catalog
two_steps = record {
  workflows = record { id = 1; name = "Leave"; is_active = true } ∷ [];
  steps = step_of 1 ∷ step_of 2 ∷ [];
  transitions =
      record {
        from_step_id = 1;
        to_step = some (step_of 2);
        outcome = "APPROVED";
        condition_config = end;
      }
      ∷ record { from_step_id = 2; to_step = none; outcome = "REJECTED"; condition_config = end }
      ∷ [];
  roles = "clerk" ∷ [];
  permissions = [];
}

abbrev clerk : User
clerk = record {
  id = "u1";
  email = "clerk@example.com";
  username = "clerk";
  full_name = "Clerk";
  hashed_password = "h";
  is_active = true;
  roles = record { id = "clerk"; name = "Clerk"; permissions = [] } ∷ [];
}

abbrev begun : Instance
begun = log_action "WORKFLOW_STARTED" "u2" (
    enter 0 (step_of 1) (record (unfold new_instance in new_instance 1 "u2" end) {
      status = RequestStatus.in_progress;
      history =
          record {
            from_status = RequestStatus.created;
            to_status = RequestStatus.in_progress;
            changed_by = "u2";
          }
          ∷ [];
    }))

approved_step :
    process_step plain_python two_steps 5 clerk "APPROVED" end (some begun)
    ≡ done (decided plain_python two_steps 5 clerk "APPROVED" end begun (step_of 1))
unfolding process_step new_instance evaluate
approved_step = refl

process_step-IsAuthorized_example :
    (x : RequestStep) × (current_exec begun ≡ some x) × IsAuthorized plain_python clerk x.step
process_step-IsAuthorized_example =
    process_step-IsAuthorized plain_python two_steps 5 clerk "APPROVED" end begun approved_step

begun-IsActive : IsActive begun
unfolding new_instance
begun-IsActive = (refl, (1, refl, inl (refl, refl, tt)))

make_decision-refused_example :
    make_decision plain_python two_steps 5 clerk (some (action_text approve)) none (some begun)
    ≡ refused 500
unfolding current_exec refusal new_instance
make_decision-refused_example =
    (make_decision-refused plain_python two_steps 5 clerk approve none (some begun) refl refl).1
      begun (pending 0 (step_of 1)) refl begun-IsActive refl refl
