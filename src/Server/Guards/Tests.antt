-- ===== src/Server/Guards/Tests.antt =====
-- Requests of a user who is signed in, and of one who is not.
use starbies_schedule_sync.Base.{
  ℕ, ◌*◌, ◌<◌, ◌==◌, ◌≡◌, refl, inl, inr, String, Bool, true, false, none, some, Option, List, [],
  ◌∷◌, All, Has, if◌then◌else◌, str_eq,
}
use starbies_schedule_sync.Server.Limits.{no_requests}
use starbies_schedule_sync.Server.Accounts.{
  User, forbidden, nanoseconds, ok, too_many_requests, unauthorized, unix,
}
use starbies_schedule_sync.Server.Accounts.SignIn.{Request, opened, requested, run, verified}
use starbies_schedule_sync.Server.Accounts.SignIn.History.{IsSignedIn}
use starbies_schedule_sync.Server.Routes.{
  Route, exact, internal, limited, pin_requests, routes, signed_in, admin,
}
use starbies_schedule_sync.Server.Guards.{Limits, Visit, guard}
use starbies_schedule_sync.Server.Guards.Access.{HasOutcome, guard-outcome}
use starbies_schedule_sync.Server.Guards.Users.{guard-IsSignedIn}

abbrev to_lower : String → String
to_lower text = text

abbrev hash : String → String
hash token = if str_eq token "t1" then "h1" else "h2"

abbrev is_location : String → Bool
is_location name = str_eq name "America/Chicago"

-- Addresses by number, of which one network is internal.
abbrev parse_ip : String → Option ℕ
parse_ip text =
    if str_eq text "10.0.0.1" then some 1 else if str_eq text "192.0.2.7" then some 2 else none

abbrev internal_cidrs : List (ℕ → Bool)
internal_cidrs = (λ ip. ip == 1) ∷ []

abbrev no_limits : Limits
no_limits limiter = no_requests

abbrev history : List Request
history =
    requested 0 (some "ada@x.org") (some "111111") (some (record { id = "u1"; ics_token = "c1" }))
      true
    ∷ verified (20 * nanoseconds) (some ("ada@x.org", "111111")) none (some "t1")
    ∷ []

abbrev ada : User
ada = record {
  id = "u1";
  email = "ada@x.org";
  is_admin = false;
  timezone = "America/Chicago";
  ics_token = "c1";
  created_at = 0;
  updated_at = 0;
}

abbrev visit : Visit
visit = record { now = 30 * nanoseconds; client_ip = "192.0.2.7"; cookie = some "t1" }

abbrev stranger : Visit
stranger = record { now = 30 * nanoseconds; client_ip = "192.0.2.7"; cookie = none }

abbrev account : Route
account = record { method = "DELETE"; pattern = exact "/api/account"; middlewares = signed_in }

account-Has : Has account routes
account-Has = inr (inr (inr (inr (inr (inr (inr (inl refl)))))))

passes_ada :
    (guard hash parse_ip internal_cidrs signed_in none visit
      (run to_lower hash is_location history opened)
      no_limits).0
    ≡ ok (some ada)
unfolding guard run
passes_ada = refl

stops_ada :
    (guard hash parse_ip internal_cidrs admin none visit
      (run to_lower hash is_location history opened)
      no_limits).0
    ≡ forbidden
unfolding guard run
stops_ada = refl

stops_outside :
    (guard hash parse_ip internal_cidrs internal none visit
      (run to_lower hash is_location history opened)
      no_limits).0
    ≡ forbidden
unfolding guard run
stops_outside = refl

stops_stranger :
    (guard hash parse_ip internal_cidrs signed_in none stranger
      (run to_lower hash is_location history opened)
      no_limits).0
    ≡ unauthorized
unfolding guard run
stops_stranger = refl

-- The sixth request of a PIN within a minute
stops_sixth :
    (guard hash parse_ip internal_cidrs
      (limited pin_requests
        ∷ limited pin_requests
        ∷ limited pin_requests
        ∷ limited pin_requests
        ∷ limited pin_requests
        ∷ limited pin_requests
        ∷ [])
      none
      stranger
      opened
      no_limits).0
    ≡ too_many_requests
unfolding guard
stops_sixth = refl

guard-outcome_example :
    All
      (HasOutcome hash parse_ip internal_cidrs visit
        (run to_lower hash is_location history opened)
        no_limits)
      routes
guard-outcome_example =
    guard-outcome hash parse_ip internal_cidrs visit (run to_lower hash is_location history opened)
      no_limits

guard-IsSignedIn_example :
    (token : String) × (expires_at : ℕ) × (visit.cookie ≡ some token)
    × IsSignedIn to_lower hash is_location history (hash token) "u1" "ada@x.org" expires_at
    × (unix visit.now < expires_at)
guard-IsSignedIn_example =
    guard-IsSignedIn to_lower hash is_location parse_ip internal_cidrs history visit no_limits
      account ada account-Has passes_ada
