-- ===== src/Session/Tests.antt =====
-- The theorem at a concrete session.
use workflow_automation_plat.Common.{◌≡◌, true, none, some, List, [], ◌∷◌}
use workflow_automation_plat.Api.Client.{Session, on_request, header, base_config}
use workflow_automation_plat.Api.Login.{initial}
use workflow_automation_plat.Session.{
  Event, logged_in, failed, session_run, bearer, latest, request_after_events,
}

abbrev fresh_session : Session
fresh_session = record { access_token = none; location = "/" }

abbrev expired_then_again : List Event
expired_then_again =
    logged_in (some "t1") initial
    ∷ failed (record { status = some 401; detail = none; message = "expired" })
    ∷ logged_in (some "t2") initial
    ∷ failed (record { status = some 500; detail = none; message = "down" })
    ∷ []

request_after_events_example :
    header "Authorization"
      (on_request true (session_run expired_then_again fresh_session) (base_config "tasks")).headers
    ≡ bearer (latest expired_then_again fresh_session.access_token)
request_after_events_example = request_after_events expired_then_again fresh_session "tasks"
