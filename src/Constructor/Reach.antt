-- ===== src/Constructor/Reach.antt =====
-- Everything that can happen on the page, and what holds of every state that it reaches.
use workflow_automation_plat.Common.{
  ◌≡◌, ◌≤◌, ◌<◌, refl, arith, String, true, false, Option, none, some, List, [], ◌∷◌, map, length,
  is_blank,
}
use workflow_automation_plat.Js.{Host, Thrown, Result, ok, threw, str}
use workflow_automation_plat.Ui.{Offers}
use workflow_automation_plat.Constructor.Nodes.{Role, Permission, default_transitions}
use workflow_automation_plat.Constructor.Page.{
  State, Msg, Draw, initial, update, metadata_loaded, submit_answered, wizard, set_mode, set_name,
  add_node, remove_node, edit_node, continue, submit, next_step, submit_payload, submit_failed,
  payload_of, Effect, post_workflow,
}
use workflow_automation_plat.Constructor.Payload.{Payload, wizard_payload, format_step}
use workflow_automation_plat.Constructor.Linear.{chain, wizard_payload-chain}
use workflow_automation_plat.Constructor.View.{view}
use workflow_automation_plat.Constructor.Controls.{IsAllowed, Offers-IsAllowed}
use workflow_automation_plat.Constructor.Numbering.{
  NumberedFrom, IsFresh, HasDistinctIds, add_step-NumberedFrom, remove_step-NumberedFrom,
  update_step-NumberedFrom, add_step-HasDistinctIds, remove_step-HasDistinctIds,
  update_step-HasDistinctIds,
}

-- The user works a control that the page shows and that is not disabled, or an answer arrives.
-- `Math.random` is taken to give an identifier that no step has yet.
pub data Happens (host : Host) (s : State) : State → Type 0 where
  act :
      (d : Draw) (m : Msg)
      → Offers (view host s) m
      → IsFresh d.temp_id s.workflow_steps
      → Happens host s (update host d m s).0
  loaded :
      (answer : Option (List Role × List Permission)) (template : String)
      → Happens host s (metadata_loaded answer template s)
  answered : (e : Option Thrown) → s.is_submitting ≡ true → Happens host s (submit_answered e s).0

pub data Reaches (host : Host) : State → Type 0 where
  start : Reaches host initial
  next : {s t : State} → Reaches host s → Happens host s t → Reaches host t

pub record IsSound (s : State) : Type 0 where
  pub from_one : 1 ≤ s.step
  pub to_three : s.step ≤ 3
  pub named : 2 ≤ s.step → is_blank s.name ≡ false
  pub numbered : NumberedFrom 0 s.workflow_steps
  pub distinct : HasDistinctIds s.workflow_steps
  pub populated : s.step ≡ 3 → 1 ≤ length s.workflow_steps
  pub linked : s.step ≡ 3 → s.transitions ≡ default_transitions s.workflow_steps

initial-IsSound : IsSound initial
initial-IsSound = ground arith

next_step-IsSound : (s : State) → s.step < 3 → IsSound s → IsSound (next_step s).0
unfolding next_step
next_step-IsSound s h i = ground arith

submit_failed-IsSound : (e : Thrown) (s : State) → IsSound s → IsSound (submit_failed e s).0
unfolding submit_failed
submit_failed-IsSound e s i = ground arith

submit_payload-IsSound :
    (r : Result Payload) (s : State) → IsSound s → IsSound (submit_payload r s).0
unfolding submit_payload
submit_payload-IsSound (ok p) s i = ground arith
submit_payload-IsSound (threw e) s i = submit_failed-IsSound e s i

answered-IsSound : (e : Option Thrown) (s : State) → IsSound s → IsSound (submit_answered e s).0
unfolding submit_answered
answered-IsSound none s i = ground arith
answered-IsSound (some e) s i = submit_failed-IsSound e s i

loaded-IsSound :
    (answer : Option (List Role × List Permission)) (template : String) (s : State)
    → IsSound s
    → IsSound (metadata_loaded answer template s)
unfolding metadata_loaded
loaded-IsSound none template s i = i
loaded-IsSound (some a) template s i = ground arith

update-IsSound :
    (host : Host) (d : Draw) (m : Msg) (s : State)
    → IsAllowed s m
    → IsFresh d.temp_id s.workflow_steps
    → IsSound s
    → IsSound (update host d m s).0
unfolding update
update-IsSound host d (set_mode m) s a f i = ground arith
update-IsSound host d (set_name t) s a f i = ground arith
update-IsSound host d add_node s a f i = ground (
  arith,
  add_step-NumberedFrom d.temp_id s.workflow_steps i.numbered,
  add_step-HasDistinctIds d.temp_id s.workflow_steps f i.distinct,
)
update-IsSound host d (remove_node k) s a f i = ground (
  arith,
  remove_step-NumberedFrom k s.workflow_steps,
  remove_step-HasDistinctIds k s.workflow_steps i.distinct,
)
update-IsSound host d (edit_node k e) s (a, b) f i = ground (
  arith,
  update_step-NumberedFrom 0 k e s.workflow_steps b i.numbered,
  update_step-HasDistinctIds e b k s.workflow_steps i.distinct,
)
update-IsSound host d continue s a f i = next_step-IsSound s a i
update-IsSound host d submit s a f i = submit_payload-IsSound (payload_of host s s.mode) s i
update-IsSound host d _ s a f i = ground arith

Happens-IsSound : (host : Host) {s t : State} → Happens host s t → IsSound s → IsSound t
Happens-IsSound host {s} (act d m o f) i =
    update-IsSound host d m s (Offers-IsAllowed host s m o) f i
Happens-IsSound host {s} (loaded answer template) i = loaded-IsSound answer template s i
Happens-IsSound host {s} (answered e h) i = answered-IsSound e s i

-- In every state that the page reaches the wizard stands on one of its three steps; the name is
-- not blank from the second step on; the steps are numbered from one without gaps and have distinct
-- identifiers; and on the third step there is a step, and the transitions are those of the steps
-- as they are, however often the user went back and changed them.
pub Reaches-IsSound : (host : Host) {s : State} → Reaches host s → IsSound s
Reaches-IsSound host start = initial-IsSound
Reaches-IsSound host (next r h) = Happens-IsSound host h (Reaches-IsSound host r)

-- A submission by the wizard posts one workflow, with a name that is not blank, all the steps, and
-- the chain of their orders as its transitions.
pub record Posts (s : State) (es : List Effect) : Type 0 where
  pub payload : Payload
  pub posted : es ≡ post_workflow payload ∷ []
  pub name : payload.name ≡ some (str s.name)
  pub description : payload.description ≡ some (str s.description)
  pub named : is_blank s.name ≡ false
  pub populated : 1 ≤ length s.workflow_steps
  pub steps : payload.steps ≡ map format_step s.workflow_steps
  pub transitions : payload.transitions ≡ chain 0 (length s.workflow_steps)

wizard-Posts :
    (host : Host) (d : Draw) (s : State)
    → IsSound s
    → s.step ≡ 3
    → s.mode ≡ wizard
    → Posts s (update host d submit s).1
unfolding update wizard_payload
wizard-Posts host d s i e m = record {
  payload = wizard_payload s.name s.description s.workflow_steps s.transitions;
  posted = rw m refl;
  name = refl;
  description = refl;
  named = i.named (omega arith);
  populated = i.populated e;
  steps = refl;
  transitions =
      rw (i.linked e)
        (wizard_payload-chain s.name s.description s.workflow_steps i.numbered i.distinct);
}

-- In every state that the page reaches, a submission that the wizard offers posts one workflow:
-- its name is not blank, it has at least one step, its steps are those of the page in order, and
-- its transitions are exactly the chain, which approves from each order to the next and ends
-- behind the last, and ends at each rejection.
pub submit-Posts :
    (host : Host) (d : Draw) {s : State}
    → Reaches host s
    → s.mode ≡ wizard
    → Offers (view host s) submit
    → Posts s (update host d submit s).1
submit-Posts host d {s} r m o =
    let i = Reaches-IsSound host r in
    let reached = (Offers-IsAllowed host s submit o).1 m in
    wizard-Posts host d s i (omega (arith, i.to_three)) m
