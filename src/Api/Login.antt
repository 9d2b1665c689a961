-- ===== src/Api/Login.antt =====
-- frontend/src/app/page.tsx: the login page.
use workflow_automation_plat.Common.{
  ℕ, String, Bool, true, false, not, Option, none, some, List, [], ◌∷◌, ◌++◌, str_eq, if◌then◌else◌,
}
use workflow_automation_plat.Ui.{Widget, text, spinner, button, input, when}
use workflow_automation_plat.Api.Client.{Session, Failure}

pub record State : Type 0 where
  pub email : String
  pub password : String
  pub show_password : Bool
  pub loading : Bool
  pub error : String

pub data Msg : Type 0 where
  set_email set_password : String → Msg
  toggle_password login : Msg

pub data Effect : Type 0 where
  -- The form posted to login/access-token: `username` and `password`.
  post_login : String → String → Effect
  -- `setTimeout(() => router.push(path), ms)`.
  push_after : ℕ → String → Effect

abbrev pub initial : State
initial = record {
  email = "manager@example.com";
  password = "manager123";
  show_password = false;
  loading = false;
  error = "";
}

unfoldable pub update : Msg → State → State × List Effect
update (set_email t) s = (record s { email = t }, [])
update (set_password t) s = (record s { password = t }, [])
update toggle_password s = (record s { show_password = not s.show_password }, [])
update login s = (record s { loading = true; error = "" }, post_login s.email s.password ∷ [])

abbrev pub or_text : Option String → String → String
or_text none d = d
or_text (some v) d = if str_eq v "" then d else v

-- What `setItem` stores for `response.data.access_token`: a missing one as the text "undefined".
abbrev pub stored : Option String → String
stored (some t) = t
stored none = "undefined"

-- The rest of `handleLogin` on a response with the given `access_token`.
unfoldable pub login_succeeded : Option String → Session → State → Session × State × List Effect
login_succeeded token session s = (
  record session { access_token = some (stored token) },
  record s { loading = false },
  push_after 500 "/dashboard" ∷ [],
)

-- The `catch` and `finally` of `handleLogin`.
unfoldable pub login_failed : Failure → State → State
login_failed e s = record s {
  loading = false;
  error = or_text e.detail (
      or_text (some e.message)
        "Connection failed to https://antigravity-backend-8ytp.onrender.com. Please verify your Backend service is active.");
}

unfoldable pub view : State → List (Widget Msg)
view s =
    text "NexusFlow"
      ∷ text "Enterprise Orchestration Nexus"
      ∷ text "Initialize Session"
      ∷ text "Secure Protocol v4.1 - Access Restricted"
      ∷ text "Identity Matrix"
      ∷ input "name@enterprise.com" s.email set_email
      ∷ text "Access Key"
      ∷ input "••••••••••••" s.password set_password
      ∷ button (if s.show_password then "EyeOff" else "Eye") false toggle_password
      ∷ when (not (str_eq s.error "")) (text s.error ∷ [])
    ++ (when s.loading (spinner ∷ [])
        ++ button (if s.loading then "" else "Establish Connection") s.loading login
          ∷ text "Secured by NexusFlow Post-Quantum Protocols"
          ∷ [])
