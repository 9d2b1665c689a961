-- ===== src/Constructor/Controls.antt =====
-- Which actions the controls of the page offer, in which step of the wizard.
use workflow_automation_plat.Common.{
  ℕ, ◌≡◌, ◌≢◌, ◌<◌, ◌≤◌, refl, arith, false, List, [], ◌∷◌, ◌++◌, All, All-append, ◌&◌, length,
  ◌==◌, ==_iff,
}
use workflow_automation_plat.Js.{Host}
use workflow_automation_plat.Ui.{
  Widget, Offers, Permits, Permits-Offers, All-when, All-each, when, each,
}
use workflow_automation_plat.Constructor.Nodes.{Step, Edit}
use workflow_automation_plat.Constructor.Page.{
  Mode, wizard, json, State, Msg, set_name, set_description, add_node, remove_node, edit_node, back,
  continue, submit,
}
use workflow_automation_plat.Constructor.View.{
  view, view_header, view_progress, view_content, view_footer, view_json, view_name, view_nodes,
  view_node, view_review,
}

-- The fields that the controls of a node change.
pub data IsFormEdit : Edit → Type 0 where
  name_edit : (t : _) → IsFormEdit (Edit.name t)
  description_edit : (t : _) → IsFormEdit (Edit.description t)
  role_edit : (r : _) → IsFormEdit (Edit.required_role_id r)

-- When an action is within reach of the user.
abbrev pub IsAllowed : State → Msg → Type 0
IsAllowed s (set_name t) = s.step ≡ 1
IsAllowed s (set_description t) = s.step ≡ 1
IsAllowed s add_node = s.step ≡ 2
IsAllowed s (remove_node i) = s.step ≡ 2
IsAllowed s (edit_node i e) = (s.step ≡ 2) × IsFormEdit e
IsAllowed s back = s.step ≢ 1
IsAllowed s continue = s.step < 3
IsAllowed s submit = (s.is_submitting ≡ false) × (s.mode ≡ wizard → 3 ≤ s.step)
IsAllowed s _ = Unit

module _ (host : Host) (s : State) where
  abbrev Good : List (Widget Msg) → Type 0
  Good ws = All (Permits (IsAllowed s)) ws

  Good-append : (v w : List (Widget Msg)) → Good v → Good w → Good (v ++ w)
  Good-append v w = All-append (Permits (IsAllowed s)) v w

  header-Good : Good view_header
  unfolding view_header
  header-Good = ground arith

  progress-Good : (n : ℕ) → Good (view_progress n)
  unfolding view_progress
  progress-Good n = ground arith

  json-Good : Good (view_json s)
  unfolding view_json
  json-Good =
      tt
      & tt
      & (λ t. tt)
      & tt
      & tt
      & tt
      & All-append _ (each 0 _ s.roles) (_ ∷ [])
          (All-each (IsAllowed s) _ 0 s.roles (λ j r. tt & (λ _. tt) & tt)) (tt & tt)

  name-Good : s.step ≡ 1 → Good (view_name s)
  unfolding view_name
  name-Good h = tt & (λ t. h) & tt & (λ t. h) & tt

  node-Good : s.step ≡ 2 → (i : ℕ) (n : Step) → Good (view_node s.roles i n)
  unfolding view_node
  node-Good h i n =
      (λ _. h)
      & tt
      & (λ t. (h, name_edit t))
      & tt
      & (λ o _. (h, role_edit _))
      & tt
      & (λ t. (h, description_edit t))
      & tt
      & tt

  nodes-Good : s.step ≡ 2 → Good (view_nodes s)
  unfolding view_nodes
  nodes-Good h =
      tt
      & (λ _. h)
      & All-append _ (each 0 (view_node s.roles) s.workflow_steps) _
          (All-each (IsAllowed s) _ 0 s.workflow_steps (node-Good h))
          (All-when (IsAllowed s) (length s.workflow_steps == 0) (_ ∷ []) (λ _. tt & tt))

  review-Good : Good (view_review host s)
  unfolding view_review
  review-Good = tt & tt & tt & tt & tt & tt

  footer-Good : (m : Mode) → s.mode ≡ m → Good (view_footer s m)
  unfolding view_footer
  footer-Good wizard e = ground arith
  footer-Good json e = ground arith

  content-Good : (m : Mode) → Good (view_content host s m)
  unfolding view_content
  content-Good json = json-Good
  content-Good wizard =
      All-append _ (when (s.step == 1) _) (when (s.step == 2) _ ++ when (s.step == 3) _)
        (All-when (IsAllowed s) _ _ (λ e. name-Good ((==_iff _ 1).0 e)))
        (All-append _ (when (s.step == 2) _) (when (s.step == 3) _)
          (All-when (IsAllowed s) _ _ (λ e. nodes-Good ((==_iff _ 2).0 e)))
          (All-when (IsAllowed s) (s.step == 3) (view_review host s) (λ _. review-Good)))

  -- The page offers an action only where it is within reach: the fields of the first step on the
  -- first step, the nodes on the second, `Back` not on the first, `Continue` before the third, and
  -- a submission neither while another waits nor by the wizard before its third step.
  pub Offers-IsAllowed : (m : Msg) → Offers (view host s) m → IsAllowed s m
  unfolding view
  Offers-IsAllowed m =
      let below = view_content host s s.mode ++ view_footer s s.mode in
      let rest = view_progress s.step ++ below in
      Permits-Offers (IsAllowed s) (view_header ++ rest) m (
        Good-append view_header rest header-Good (
          Good-append (view_progress s.step) below (progress-Good s.step) (
            Good-append (view_content host s s.mode) _ (content-Good s.mode)
              (footer-Good s.mode refl))))
