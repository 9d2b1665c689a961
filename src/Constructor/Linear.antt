-- ===== src/Constructor/Linear.antt =====
-- The transitions that the wizard derives and posts, against a description by the orders alone.
use workflow_automation_plat.Common.{
  ℕ, zero, suc, ◌+◌, ◌≡◌, ◌≢◌, refl, ap, arith, String, Option, some, none, List, [], ◌∷◌, length,
  map, find, str_eq, eq_refl, eq_iff, IsIn, inl, inr,
}
use workflow_automation_plat.Js.{Json, num}
use workflow_automation_plat.Constructor.Nodes.{Step, default_transitions, next_temp_id}
use workflow_automation_plat.Constructor.Payload.{
  PayloadTransition, format_transition, find_step, order_of, wizard_payload,
}
use workflow_automation_plat.Constructor.Numbering.{NumberedFrom, IsFresh, HasDistinctIds}

-- The order after `i + 1`, if `k` more steps follow.
abbrev pub order_after : ℕ → ℕ → Option Json
order_after i zero = none
order_after i (suc k) = some (num (i + 2))

-- Approval leads from each order to the next and ends behind the last; a rejection ends at once.
abbrev pub chain : ℕ → ℕ → List PayloadTransition
chain i zero = []
chain i (suc k) =
    record {
      from_step_order = some (num (i + 1));
      to_step_order = order_after i k;
      outcome = "APPROVED";
    }
    ∷ record { from_step_order = some (num (i + 1)); to_step_order = none; outcome = "REJECTED" }
    ∷ chain (suc i) k

fresh_of_IsIn :
    (id : String) (s : Step) (steps : List Step) → IsFresh id steps → IsIn s steps → s.temp_id ≢ id
fresh_of_IsIn id s [] f h = elim h [ ]
fresh_of_IsIn id s (t ∷ steps) (n, f) (inl e) = rw e n
fresh_of_IsIn id s (t ∷ steps) (n, f) (inr h) = fresh_of_IsIn id s steps f h

find_self :
    (s : Step) (steps : List Step)
    → HasDistinctIds steps
    → IsIn s steps
    → find (λ (t : Step). str_eq t.temp_id s.temp_id) steps ≡ some s
find_self s [] _ h = elim h [ ]
find_self s (t ∷ steps) (f, d) (inl e) = rw (e, eq_refl t.temp_id) refl
find_self s (t ∷ steps) (f, d) (inr h) =
    ground (
      arith,
      eq_iff t.temp_id s.temp_id,
      fresh_of_IsIn t.temp_id s steps f h,
      find_self s steps d h,
    )

module _ (steps : List Step)
    (found : (s : Step) → IsIn s steps → find_step steps (some s.temp_id) ≡ some s) where
  next-order_after :
      (i : ℕ) (rest : List Step)
      → ((s : Step) → IsIn s rest → IsIn s steps)
      → NumberedFrom (suc i) rest
      → order_of (find_step steps (next_temp_id rest)) ≡ order_after i (length rest)
  next-order_after i [] sub _ = refl
  next-order_after i (s ∷ rest) sub (e, _) =
      rw (found s (sub s (inl refl))) (ap (λ n. some (num n)) (omega arith))

  format-chain :
      (i : ℕ) (rest : List Step)
      → ((s : Step) → IsIn s rest → IsIn s steps)
      → NumberedFrom i rest
      → map (format_transition steps) (default_transitions rest) ≡ chain i (length rest)
  unfolding format_transition default_transitions
  format-chain i [] sub _ = refl
  format-chain i (s ∷ rest) sub (e, h) = ground (
    arith,
    found s (sub s (inl refl)),
    next-order_after i rest (λ t k. sub t (inr k)) h,
    format-chain (suc i) rest (λ t k. sub t (inr k)) h,
  )

-- What the wizard posts for numbered steps with distinct identifiers is the chain of their orders.
pub wizard_payload-chain :
    (name description : String) (steps : List Step)
    → NumberedFrom 0 steps
    → HasDistinctIds steps
    → (wizard_payload name description steps (default_transitions steps)).transitions
      ≡ chain 0 (length steps)
unfolding wizard_payload
wizard_payload-chain name description steps h d =
    format-chain steps (λ s k. find_self s steps d k) 0 steps (λ s k. k) h
