-- ===== src/Api/Auth.antt =====
-- mesh/api/auth.py. The framework's request is its path and its look-up of a header, and what the
-- rest of the application does is a parameter. Header values are text of code points below 256, as
-- the framework decodes them. The context variable of the tenant is the state.
use cluster_mesh.Prelude.{
  String, Bool, true, false, ◌&&◌, ◌||◌, Option, none, some, ◌==◌, starts_with, if◌then◌else◌,
}
use cluster_mesh.Prelude.Text.{lower, begins, same_word, drop, lstrip, rstrip, is_ascii}

pub record AuthConfig : Type 0 where
  pub api_key : Option String
  pub enabled : Bool

pub record Request : Type 0 where
  pub path : String
  pub header : String → Option String

-- `secrets.compare_digest`: on text that is not ASCII it raises a TypeError, which is none.
unfoldable pub compare_digest : String → String → Option Bool
unfolding is_ascii
compare_digest s t = if is_ascii s && is_ascii t then some (s == t) else none

-- The two variables of the environment, with "" for the second where it is missing.
unfoldable pub from_env : Option String → String → AuthConfig
unfolding lower begins
from_env key flag =
    let asked =
      same_word (lower flag) (lower "1")
      || (same_word (lower flag) (lower "true") || same_word (lower flag) (lower "yes")) in
    elim key [
      | none ↦ record { api_key = none; enabled = asked }
      | some k ↦ record { api_key = some k; enabled = if k == "" then asked else true }
    ]

-- Of a provided key and the configured one: the test of `validate_key` when it is enabled.
unfoldable pub check_key : Option String → Option String → Option Bool
unfolding compare_digest
check_key none provided = some false
check_key (some key) none = some false
check_key (some key) (some p) =
    if (key == "") || (p == "") then some false else compare_digest p key

unfoldable pub validate_key : AuthConfig → Option String → Option Bool
unfolding check_key
validate_key config provided =
    if config.enabled then check_key config.api_key provided else some true

abbrev text_or_empty : Option String → String
text_or_empty none = ""
text_or_empty (some s) = s

unfoldable pub extract_api_key : Request → Option String
unfolding lower begins drop lstrip rstrip
extract_api_key request =
    let auth = text_or_empty (request.header "Authorization") in
    if begins (lower "bearer ") (lower auth)
    then some (lstrip (rstrip (drop 7 auth)))
    else request.header "X-API-Key"

-- The response of the application, the refusal with status 401, or an exception.
pub data Reply {ℓ} (R : Type ℓ) : Type ℓ where
  response : R → Reply R
  unauthorized : Reply R
  raised : Reply R

abbrev pub reply_of {ℓ} : {R : Type ℓ} → Option R → Reply R
reply_of none = raised
reply_of (some r) = response r

-- What `dispatch` does with the verdict on the key. `call_next` reads the tenant. The variable is
-- reset behind `call_next` only.
unfoldable pub answer_verdict {ℓ} :
    {R : Type ℓ}
    → (Option String → Option R)
    → (tenant old : Option String) → Option Bool
    → Reply R × Option String
answer_verdict call_next tenant old none = (raised, tenant)
answer_verdict call_next tenant old (some false) = (unauthorized, tenant)
answer_verdict call_next tenant old (some true) = (reply_of (call_next tenant), old)

unfoldable pub dispatch {ℓ} :
    {R : Type ℓ}
    → AuthConfig
    → (Option String → Option R)
    → Request
    → Option String
    → Reply R × Option String
unfolding answer_verdict
dispatch config call_next request current =
    let tenant = request.header "X-Tenant-Id" in
    answer_verdict call_next tenant current (
      if starts_with request.path "/api/" && config.enabled
      then validate_key config (extract_api_key request)
      else some true)
