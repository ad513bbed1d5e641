-- ===== src/Server/Guards.antt =====
-- The middlewares of cmd/app/server.go before each handler, run in their order: `authMiddleware`,
-- `adminMiddleware`, `internalOnly` and the `Middleware` of the limiters of internal/auth/ratelimit.go,
-- with the limits of cmd/app/main.go. `net.ParseIP` and the networks of INTERNAL_CIDR_ALLOWLIST are
-- parameters, and so is the client's address that gin makes out.
pub mod Access
pub mod Users
mod Tests
use starbies_schedule_sync.Base.{
  ℕ, ◌*◌, String, Bool, true, false, ◌||◌, Option, none, some, List, [], ◌∷◌, if◌then◌else◌,
}
use starbies_schedule_sync.Server.Limits.{Requests, allow}
use starbies_schedule_sync.Server.Accounts.{
  Accounts, Reply, User, admin_middleware, auth_middleware, bad_request, forbidden,
  internal_server_error, nanoseconds, ok, too_many_requests, unauthorized,
}
use starbies_schedule_sync.Server.Routes.{
  Limiter, Middleware, admins_only, authenticated, calendar_reads, internal_only, limited,
  max_body_size, pin_requests, pin_verifications,
}

abbrev pub limit_of : Limiter → ℕ
limit_of pin_requests = 5
limit_of pin_verifications = 10
limit_of calendar_reads = 5

abbrev pub minute : ℕ
minute = 60 * nanoseconds

-- What the limiters keep, each for itself.
abbrev pub Limits : Type 0
Limits = Limiter → Requests

abbrev pub set_limiter : Limiter → Requests → Limits → Limits
set_limiter pin_requests r l pin_requests = r
set_limiter pin_verifications r l pin_verifications = r
set_limiter calendar_reads r l calendar_reads = r
set_limiter _ r l other = l other

pub record Visit : Type 0 where
  pub now : ℕ
  pub client_ip : String
  pub cookie : Option String

-- What the middlewares come to: the user that they have found, if any, or what they stop with.
abbrev pub Outcome : Type 0
Outcome = Reply (Option User)

-- The next middleware runs for the user that a middleware lets pass.
abbrev pub continue : Reply User → Limits → (User → Outcome × Limits) → Outcome × Limits
continue (ok u) l next = next u
continue bad_request l next = (bad_request, l)
continue unauthorized l next = (unauthorized, l)
continue forbidden l next = (forbidden, l)
continue too_many_requests l next = (too_many_requests, l)
continue internal_server_error l next = (internal_server_error, l)

-- `MustGet` panics where no middleware has set the user, which gin answers with the status 500.
abbrev pub admin_or_panic : Option User → Reply User
admin_or_panic none = internal_server_error
admin_or_panic (some u) = admin_middleware u

module _ {Address : Type 0} (hash : String → String) (parse_ip : String → Option Address)
    (internal_cidrs : List (Address → Bool)) where
  abbrev pub contains_any : List (Address → Bool) → Address → Bool
  contains_any [] ip = false
  contains_any (contains ∷ cidrs) ip = contains ip || contains_any cidrs ip

  abbrev pub is_internal : Option Address → Bool
  is_internal none = false
  is_internal (some ip) = contains_any internal_cidrs ip

  abbrev pub allowed : Limiter → Visit → Limits → Bool × Requests
  unfolding allow
  allowed limiter v l = allow minute (limit_of limiter) v.now v.client_ip (l limiter)

  -- The middlewares of a route, and what the limiters keep after them.
  unfoldable pub guard :
      List Middleware → Option User → Visit → Accounts → Limits → Outcome × Limits
  unfolding allow auth_middleware admin_middleware
  guard [] user v s l = (ok user, l)
  guard (authenticated ∷ ms) user v s l =
      continue (auth_middleware hash v.now v.cookie s) l (λ u. guard ms (some u) v s l)
  guard (admins_only ∷ ms) user v s l =
      continue (admin_or_panic user) l (λ u. guard ms (some u) v s l)
  guard (internal_only ∷ ms) user v s l =
      let rest = guard ms user v s l in
      if is_internal (parse_ip v.client_ip) then rest else (forbidden, l)
  guard (max_body_size ∷ ms) user v s l = guard ms user v s l
  guard (limited limiter ∷ ms) user v s l =
      let (ok_so_far, requests) = allowed limiter v l in
      let l' = set_limiter limiter requests l in
      let rest = guard ms user v s l' in if ok_so_far then rest else (too_many_requests, l')
