-- ===== src/Server/Routes.antt =====
-- The routes that cmd/app/server.go registers, against the calls of web/src/lib/api.ts.
use Prim.Native.String.{◌++◌}
use text.Mathlib.Text.{starts_with}
use text.Mathlib.TextEquality.{starts_with_iff}
use starbies_schedule_sync.Base.{
  ℕ, String, ◌≡◌, ◌≢◌, refl, Bool, true, false, some, List, [], ◌∷◌, arith, get_elem?, All, eq_iff,
  str_eq, ◌&&◌, not,
}
use starbies_schedule_sync.Api.Request.{Call, includes, call_of}
use starbies_schedule_sync.Api.Endpoints.Calls.{call}
use starbies_schedule_sync.Api.Endpoints.{
  Endpoint, config, request_pin, verify_pin, logout, me, dev_login, save_credentials,
  update_credentials, schedule, ics_url, delete_account, update_timezone, scrape_status,
  scrape_logs, onboarding_status, admin_logs, admin_users, trigger_scrape, path_of, options_of,
}

-- A path, or a path up to a parameter that stands for one last segment.
pub data Pattern : Type 0 where
  exact up_to_parameter : String → Pattern

-- The limiters that stand before a handler.
pub data Limiter : Type 0 where
  pin_requests pin_verifications calendar_reads : Limiter

-- `maxBodySize` stops nothing by itself.
pub data Middleware : Type 0 where
  limited : Limiter → Middleware
  authenticated admins_only internal_only max_body_size : Middleware

pub record Route : Type 0 where
  pub method : String
  pub pattern : Pattern
  pub middlewares : List Middleware

abbrev route : String → String → List Middleware → Route
route method path middlewares = record {
  method = method;
  pattern = exact path;
  middlewares = middlewares;
}

abbrev pub signed_in : List Middleware
signed_in = authenticated ∷ []

abbrev pub internal : List Middleware
internal = max_body_size ∷ internal_only ∷ []

abbrev pub admin : List Middleware
admin = authenticated ∷ admins_only ∷ []

-- In the order of `setupRoutes`, the groups' prefixes and middlewares written out.
abbrev pub routes : List Route
routes =
    route "GET" "/api/config" []
    ∷ route "POST" "/api/auth/request-pin" (limited pin_requests ∷ [])
    ∷ route "POST" "/api/auth/verify-pin" (limited pin_verifications ∷ [])
    ∷ route "POST" "/api/auth/logout" []
    ∷ route "GET" "/api/auth/me" signed_in
    ∷ route "POST" "/api/credentials" signed_in
    ∷ route "PUT" "/api/credentials" signed_in
    ∷ route "DELETE" "/api/account" signed_in
    ∷ route "GET" "/api/schedule" signed_in
    ∷ route "PATCH" "/api/settings/timezone" signed_in
    ∷ route "GET" "/api/calendar/ics-url" signed_in
    ∷ route "GET" "/api/scrape-status" signed_in
    ∷ route "GET" "/api/scrape-logs" signed_in
    ∷ route "GET" "/api/onboarding-status" signed_in
    ∷ route "GET" "/internal/scrape/credentials" internal
    ∷ route "POST" "/internal/scrape/shifts" internal
    ∷ route "POST" "/internal/scrape/failure" internal
    ∷ record {
      method = "GET";
      pattern = up_to_parameter "/cal/";
      middlewares = limited calendar_reads ∷ [];
    }
    ∷ route "GET" "/api/admin/scrape-logs" admin
    ∷ route "GET" "/api/admin/users" admin
    ∷ record {
      method = "POST";
      pattern = up_to_parameter "/api/admin/trigger-scrape/";
      middlewares = admin;
    }
    ∷ []

-- One segment of a path.
abbrev pub IsSegment : String → Type 0
IsSegment s = (s ≢ "") × (includes s "/" ≡ false)

abbrev pub Fits : Pattern → String → Type 0
Fits (exact path) called = path ≡ called
Fits (up_to_parameter prefix) called =
    (segment : String) × (prefix ++ segment ≡ called) × IsSegment segment

abbrev pub Serves : Route → Call → Type 0
Serves r call = (r.method ≡ call.method) × Fits r.pattern call.path

abbrev pub IsServed : Call → Type 0
IsServed call = (i : ℕ) × ((r : Route) × (get_elem? routes i ≡ some r) × Serves r call)

-- The endpoints that the client relies on: all but the development login, a scrape being triggered
-- for an identifier that is one segment of a path.
abbrev pub IsUsable : Endpoint → Type 0
IsUsable dev_login = ⊥
IsUsable (trigger_scrape user_id) = IsSegment user_id
IsUsable _ = Unit

-- The server has a route with the method and the path of every call of the client, but for the
-- development login.
pub call-IsServed : (e : Endpoint) → IsUsable e → IsServed (call e)
unfolding call_of path_of options_of
call-IsServed config h = (0, (_, refl, (refl, refl)))
call-IsServed (request_pin email) h = (1, (_, refl, (refl, refl)))
call-IsServed (verify_pin email pin) h = (2, (_, refl, (refl, refl)))
call-IsServed logout h = (3, (_, refl, (refl, refl)))
call-IsServed me h = (4, (_, refl, (refl, refl)))
call-IsServed dev_login h = absurd h
call-IsServed (save_credentials d) h = (5, (_, refl, (refl, refl)))
call-IsServed (update_credentials d) h = (6, (_, refl, (refl, refl)))
call-IsServed delete_account h = (7, (_, refl, (refl, refl)))
call-IsServed schedule h = (8, (_, refl, (refl, refl)))
call-IsServed (update_timezone tz) h = (9, (_, refl, (refl, refl)))
call-IsServed ics_url h = (10, (_, refl, (refl, refl)))
call-IsServed scrape_status h = (11, (_, refl, (refl, refl)))
call-IsServed scrape_logs h = (12, (_, refl, (refl, refl)))
call-IsServed onboarding_status h = (13, (_, refl, (refl, refl)))
call-IsServed admin_logs h = (18, (_, refl, (refl, refl)))
call-IsServed admin_users h = (19, (_, refl, (refl, refl)))
call-IsServed (trigger_scrape user_id) h = (20, (_, refl, (refl, (user_id, refl, h))))

-- A test that every route which serves a call passes.
may_fit : Pattern → String → Bool
may_fit (exact path) called = str_eq path called
may_fit (up_to_parameter prefix) called = starts_with called prefix

may_serve : Route → Call → Bool
unfolding may_fit
may_serve r call = str_eq r.method call.method && may_fit r.pattern call.path

Fits-may_fit : (p : Pattern) (called : String) → Fits p called → may_fit p called ≡ true
unfolding may_fit
Fits-may_fit (exact path) called h = (eq_iff path called).1 h
Fits-may_fit (up_to_parameter prefix) called (segment, h, _) =
    (starts_with_iff called prefix).1 (segment, h)

Serves-may_serve : (r : Route) (call : Call) → Serves r call → may_serve r call ≡ true
unfolding may_serve
Serves-may_serve r call (h, k) =
    ground (arith, (eq_iff r.method call.method).1 h, Fits-may_fit r.pattern call.path k)

may_all_fail : List Route → Call → Bool
may_all_fail [] call = true
may_all_fail (r ∷ rs) call = not (may_serve r call) && may_all_fail rs call

none-Serves :
    (rs : List Route) (call : Call) → may_all_fail rs call ≡ true → All (λ r. ¬ Serves r call) rs
unfolding may_all_fail
none-Serves [] call h = tt
none-Serves (r ∷ rs) call h =
    (λ s. ground (arith, Serves-may_serve r call s), none-Serves rs call (ground arith))

-- No route of the server serves the development login that the client has a call for.
pub dev_login-not_served : All (λ r. ¬ Serves r (call dev_login)) routes
unfolding call_of path_of options_of may_all_fail may_serve
dev_login-not_served = none-Serves routes (call dev_login) refl
