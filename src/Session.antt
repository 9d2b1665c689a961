-- ===== src/Session.antt =====
-- The session over everything that the pages do to it: logins, logouts, and refused requests.
mod Tests
use workflow_automation_plat.Common.{
  ℕ, ◌≡◌, refl, arith, String, Bool, true, false, Option, none, some, List, [], ◌∷◌, str_eq,
  eq_refl, concat, if◌then◌else◌, ◌&&◌,
}
use workflow_automation_plat.Api.Client.{
  Session, Config, Failure, on_request, on_error, set_header, header, base_config, is_unauthorized,
}
use workflow_automation_plat.Api.Login.{State, login_succeeded, stored}
use workflow_automation_plat.Layout.{handle_logout}

-- In the browser: the login page got a token, the user logged out, or a request failed.
pub data Event : Type 0 where
  logged_in : Option String → State → Event
  logged_out : Event
  failed : Failure → Event

unfoldable pub session_step : Event → Session → Session
unfolding login_succeeded handle_logout on_error
session_step (logged_in token page) s = (login_succeeded token s page).0
session_step logged_out s = (handle_logout s).0
session_step (failed e) s = (on_error true e s).0

-- The events in order, the latest last.
unfoldable pub session_run : List Event → Session → Session
unfolding session_step
session_run [] s = s
session_run (e ∷ es) s = session_run es (session_step e s)

-- What an event leaves of the token, or `none` where it does not touch it.
abbrev pub verdict : Event → Option (Option String)
verdict (logged_in token page) = some (some (stored token))
verdict logged_out = some none
verdict (failed e) = if is_unauthorized e.status then some none else none

-- The latest verdict decides, and without one the token at the start.
abbrev pub latest : List Event → Option String → Option String
latest [] t = t
latest (e ∷ es) t = latest es (elim (verdict e) [ none ↦ t | some v ↦ v ])

-- The header that a token makes: an empty token makes none.
abbrev pub bearer : Option String → Option String
bearer none = none
bearer (some t) = if str_eq t "" then none else some (concat "Bearer " t)

session_step-token :
    (e : Event) (s : Session)
    → (session_step e s).access_token ≡ elim (verdict e) [ none ↦ s.access_token | some v ↦ v ]
unfolding session_step
session_step-token (logged_in token page) s = refl
session_step-token logged_out s = refl
session_step-token (failed e) s = ground arith

session_run-latest :
    (es : List Event) (s : Session) → (session_run es s).access_token ≡ latest es s.access_token
unfolding session_run
session_run-latest [] s = refl
session_run-latest (e ∷ es) s =
    rw (session_run-latest es (session_step e s), session_step-token e s) refl

on_request-bearer :
    (s : Session) (path : String)
    → header "Authorization" (on_request true s (base_config path)).headers ≡ bearer s.access_token
unfolding on_request set_header header
on_request-bearer s path = ground arith

-- Whatever logins, logouts and failed requests went before, a request from the browser carries the
-- bearer token of the latest login exactly if no logout and no answer 401 came after it; otherwise
-- it carries no authorization. Other failures leave the session alone.
pub request_after_events :
    (es : List Event) (s : Session) (path : String)
    → header "Authorization" (on_request true (session_run es s) (base_config path)).headers
      ≡ bearer (latest es s.access_token)
request_after_events es s path =
    rw (on_request-bearer (session_run es s) path, session_run-latest es s) refl
