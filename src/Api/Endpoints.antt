-- ===== src/Api/Endpoints.antt =====
-- The object `api` of web/src/lib/api.ts: the path, the options and the third argument of each
-- call of `request`. The cache in front of two of them is in Api/Cache.antt.
pub mod Calls
use Prim.Native.String.{◌++◌}
use starbies_schedule_sync.Base.{String, Bool, true, false, Option, none, some, List}
use starbies_schedule_sync.Browser.{Async}
use starbies_schedule_sync.Api.Types.{
  User, ScheduleResponse, ScrapeLog, ScrapeStatus, OnboardingStatus, CredentialsFormData, Config,
  AdminUser,
}
use starbies_schedule_sync.Api.Request.{
  Payload, pin_request, pin_check, credentials, timezone, RequestInit, Call, Reply, request,
}

pub data Endpoint : Type 0 where
  config : Endpoint
  request_pin : (email : String) → Endpoint
  verify_pin : (email pin : String) → Endpoint
  logout me dev_login : Endpoint
  save_credentials update_credentials : CredentialsFormData → Endpoint
  schedule ics_url delete_account : Endpoint
  update_timezone : String → Endpoint
  scrape_status scrape_logs onboarding_status admin_logs admin_users : Endpoint
  trigger_scrape : (user_id : String) → Endpoint

-- The type at which the caller reads the document; the client ignores the others. An object of one
-- key (`{ url }`, `{ logs }`, `{ users }`) is the value at that key.
abbrev pub Answer : Endpoint → Type 0
Answer config = Config
Answer (verify_pin _ _) = User
Answer me = User
Answer dev_login = User
Answer schedule = ScheduleResponse
Answer ics_url = String
Answer (update_timezone _) = User
Answer scrape_status = ScrapeStatus
Answer scrape_logs = List ScrapeLog
Answer onboarding_status = OnboardingStatus
Answer admin_logs = List ScrapeLog
Answer admin_users = List AdminUser
Answer _ = Unit {0}

unfoldable pub path_of : Endpoint → String
path_of config = "/api/config"
path_of (request_pin _) = "/api/auth/request-pin"
path_of (verify_pin _ _) = "/api/auth/verify-pin"
path_of logout = "/api/auth/logout"
path_of me = "/api/auth/me"
path_of dev_login = "/api/auth/dev-login"
path_of (save_credentials _) = "/api/credentials"
path_of (update_credentials _) = "/api/credentials"
path_of schedule = "/api/schedule"
path_of ics_url = "/api/calendar/ics-url"
path_of delete_account = "/api/account"
path_of (update_timezone _) = "/api/settings/timezone"
path_of scrape_status = "/api/scrape-status"
path_of scrape_logs = "/api/scrape-logs"
path_of onboarding_status = "/api/onboarding-status"
path_of admin_logs = "/api/admin/scrape-logs"
path_of admin_users = "/api/admin/users"
path_of (trigger_scrape user_id) = "/api/admin/trigger-scrape/" ++ user_id

abbrev get : RequestInit
get = record { method = none; headers = none; body = none }

abbrev send : String → Option Payload → RequestInit
send method body = record { method = some method; headers = none; body = body }

unfoldable pub options_of : Endpoint → RequestInit
options_of (request_pin email) = send "POST" (some (pin_request email))
options_of (verify_pin email pin) = send "POST" (some (pin_check email pin))
options_of logout = send "POST" none
options_of dev_login = send "POST" none
options_of (save_credentials d) = send "POST" (some (credentials d))
options_of (update_credentials d) = send "PUT" (some (credentials d))
options_of delete_account = send "DELETE" none
options_of (update_timezone tz) = send "PATCH" (some (timezone tz))
options_of (trigger_scrape _) = send "POST" none
options_of _ = get

-- Whether a 401 sends the browser to the login page.
unfoldable pub redirects : Endpoint → Bool
redirects config = false
redirects me = false
redirects dev_login = false
redirects _ = true

-- The server and the network: a reply to each call, read at the endpoint's type.
abbrev pub Network : Type 0
Network = (e : Endpoint) → Call → Reply (Answer e)

unfoldable pub api : Network → (e : Endpoint) → Async (Answer e)
unfolding request
api net e = request (net e) (path_of e) (options_of e) (redirects e)
