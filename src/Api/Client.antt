-- ===== src/Api/Client.antt =====
-- frontend/src/lib/api.ts: the client that every page calls, with its two interceptors, and the
-- browser's session that they read and write.
use workflow_automation_plat.Common.{
  ℕ, String, Bool, false, Option, none, some, List, [], ◌∷◌, str_eq, ◌==◌, if◌then◌else◌, concat,
  ◌&&◌,
}

-- `localStorage`'s token, and `window.location`.
pub record Session : Type 0 where
  pub access_token : Option String
  pub location : String

pub record Config : Type 0 where
  pub url : String
  pub headers : List (String × String)

-- The error that axios rejects with: the status, where there was a response at all.
pub record Failure : Type 0 where
  pub status : Option ℕ
  pub detail : Option String
  pub message : String

abbrev pub api_base_url : String
api_base_url = "https://antigravity-backend-8ytp.onrender.com/api/v1"

-- `axios.create`: what every request starts from.
abbrev pub base_config : String → Config
base_config path = record {
  url = concat api_base_url (concat "/" path);
  headers = ("Content-Type", "application/json") ∷ [];
}

unfoldable pub set_header : String → String → List (String × String) → List (String × String)
set_header k v [] = (k, v) ∷ []
set_header k v ((j, w) ∷ hs) = if str_eq j k then (k, v) ∷ hs else (j, w) ∷ set_header k v hs

unfoldable pub header : String → List (String × String) → Option String
header k [] = none
header k ((j, w) ∷ hs) = if str_eq j k then some w else header k hs

-- `typeof window !== 'undefined' ? localStorage.getItem('access_token') : null`, if it is truthy.
abbrev pub current_token : Bool → Session → Option String
current_token browser s =
    if browser
    then elim s.access_token [ none ↦ none | some t ↦ if str_eq t "" then none else some t ]
    else none

-- The request interceptor.
unfoldable pub on_request : Bool → Session → Config → Config
unfolding set_header
on_request browser s config = elim (current_token browser s) [
  | none ↦ config
  | some t ↦ record config {
    headers = set_header "Authorization" (concat "Bearer " t) config.headers;
  }
]

abbrev pub is_unauthorized : Option ℕ → Bool
is_unauthorized none = false
is_unauthorized (some n) = n == 401

-- The error branch of the response interceptor; the error is handed on unchanged.
unfoldable pub on_error : Bool → Failure → Session → Session × Failure
on_error browser e s = (
  (if is_unauthorized e.status && browser
      then record s { access_token = none; location = "/" }
      else s),
  e,
)
