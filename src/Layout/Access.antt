-- ===== src/Layout/Access.antt =====
-- Who sees which entries of the navigation.
use workflow_automation_plat.Common.{String, List, map}
use workflow_automation_plat.Layout.{NavItem, filtered_nav_items}

-- The paths that a user with the given (lower-case) roles is shown.
abbrev pub paths : List String → List String
paths roles = map (λ (i : NavItem). i.path) (filtered_nav_items roles)
