-- ===== src/Layout.antt =====
-- frontend/src/components/layout/DashboardLayout.tsx: the frame of every page behind the login,
-- whose navigation depends on the user's roles.
mod Access
mod Tests
use workflow_automation_plat.Common.{
  ℕ, zero, String, Bool, true, false, not, Option, none, some, List, [], ◌∷◌, ◌++◌, ◌&&◌, ◌||◌, map,
  any, keep, find, str_eq, if◌then◌else◌, concat,
}
use mathlib.Core.Option
use workflow_automation_plat.Js.{Host}
use workflow_automation_plat.Ui.{Widget, text, button, link, when, each}
use workflow_automation_plat.Api.Client.{Session}

-- The user as users/me answers; missing fields are `none`.
pub record User : Type 0 where
  pub full_name : Option String
  pub roles : Option (List String)

pub record NavItem : Type 0 where
  pub name : String
  pub path : String

pub record State : Type 0 where
  pub user : Option User
  pub show_profile : Bool

pub data Msg : Type 0 where
  go_dashboard go_notifications toggle_profile logout : Msg

pub data Effect : Type 0 where
  push : String → Effect

-- The answer to the effect on mount.
unfoldable pub user_loaded : Option User → State → State
user_loaded (some u) s = record s { user = some u }
user_loaded none s = s

-- `handleLogout`.
unfoldable pub handle_logout : Session → Session × List Effect
handle_logout session = (record session { access_token = none }, push "/" ∷ [])

abbrev pub nav_items : List NavItem
nav_items =
    record { name = "Overview"; path = "/dashboard" }
    ∷ record { name = "My Tasks"; path = "/tasks" }
    ∷ record { name = "Ledger"; path = "/requests" }
    ∷ record { name = "Inventory"; path = "/workflows" }
    ∷ record { name = "Alerts"; path = "/notifications" }
    ∷ []

abbrev pub admin_item : NavItem
admin_item = record { name = "Admin Console"; path = "/admin" }

-- `xs.includes(x)`.
abbrev pub includes : List String → String → Bool
includes xs x = any (λ y. str_eq y x) xs

-- `user?.roles?.map((r) => r.name.toLowerCase()) || []`.
abbrev pub user_roles : Host → Option User → List String
user_roles host none = []
user_roles host (some u) = elim u.roles [ none ↦ [] | some rs ↦ map host.to_lower_case rs ]

abbrev pub is_admin : List String → Bool
is_admin roles = includes roles "admin"

abbrev pub is_manager : List String → Bool
is_manager roles = includes roles "manager" || includes roles "strategic_node"

abbrev pub shows : List String → NavItem → Bool
shows roles item =
    if is_admin roles
    then true
    else if is_manager roles
    then includes ("/dashboard" ∷ "/tasks" ∷ "/notifications" ∷ []) item.path
    else includes ("/dashboard" ∷ "/notifications" ∷ []) item.path

-- `filteredNavItems`, with the console that an administrator gets.
unfoldable pub filtered_nav_items : List String → List NavItem
filtered_nav_items roles =
    let filtered = keep (shows roles) nav_items in
    if is_admin roles && not (any (λ (i : NavItem). str_eq i.path "/admin") filtered)
    then filtered ++ admin_item ∷ []
    else filtered

-- `navItems.find(i => i.path === pathname)?.name || "Dashboard"`.
abbrev pub title : String → String
title pathname = elim (find (λ (i : NavItem). str_eq i.path pathname) nav_items) [
  | none ↦ "Dashboard"
  | some i ↦ i.name
]

unfoldable pub update : Msg → Session → State → Session × State × List Effect
unfolding handle_logout
update go_dashboard session s = (session, s, push "/dashboard" ∷ [])
update go_notifications session s = (session, s, push "/notifications" ∷ [])
update toggle_profile session s = (session, record s { show_profile = not s.show_profile }, [])
update logout session s = let (session', es) = handle_logout session in (session', s, es)

-- `user?.full_name || d` and `user?.roles?.[0]?.name || d`; the initials are left out.
abbrev pub full_name_or : String → Option User → String
full_name_or d none = d
full_name_or d (some u) = elim u.full_name [ none ↦ d | some n ↦ if str_eq n "" then d else n ]

abbrev pub first_role_or : String → List String → String
first_role_or d [] = d
first_role_or d (r ∷ rs) = if str_eq r "" then d else r

abbrev pub roles_of : Option User → List String
roles_of none = []
roles_of (some u) = elim u.roles [ none ↦ [] | some rs ↦ rs ]

unfoldable pub view_sidebar : Host → State → List (Widget Msg)
unfolding filtered_nav_items
view_sidebar host s =
    button "NexusFlow Control Node" false go_dashboard
      ∷ each 0 (λ i (n : NavItem). link n.name n.path ∷ [])
          (filtered_nav_items (user_roles host s.user))
    ++ button
        (concat (full_name_or "Identity Node" s.user)
          (concat (first_role_or "Strategic" (roles_of s.user)) " Access"))
        false toggle_profile
      ∷ when s.show_profile (
          text (full_name_or "" s.user)
          ∷ text (first_role_or "" (roles_of s.user))
          ∷ button "Terminate Session" false logout
          ∷ [])

unfoldable pub view_header : String → List (Widget Msg)
view_header pathname =
    text (concat "System Path: " pathname)
    ∷ text (title pathname)
    ∷ text "System Online"
    ∷ button "Bell" false go_notifications
    ∷ []
