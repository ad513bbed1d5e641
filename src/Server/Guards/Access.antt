-- ===== src/Server/Guards/Access.antt =====
-- What the guards of the routes come to, by a table that looks at nothing but the path.
use text.Mathlib.Text.{starts_with}
use starbies_schedule_sync.Base.{
  ◌≡◌, refl, inl, inr, String, Bool, true, false, All, Option, none, some, List, [], ◌∷◌, ◌||◌,
  if◌then◌else◌, str_eq, Bool-cases,
}
use starbies_schedule_sync.Server.Accounts.{
  Accounts, Reply, User, admin_middleware, auth_middleware, bad_request, forbidden,
  internal_server_error, ok, too_many_requests, unauthorized,
}
use starbies_schedule_sync.Server.Routes.{
  Limiter, Pattern, Route, calendar_reads, exact, limited, pin_requests, pin_verifications, routes,
  up_to_parameter,
}
use starbies_schedule_sync.Server.Guards.{
  Limits, Outcome, Visit, allowed, continue, set_limiter, guard, is_internal,
}

-- Who may call what
pub data Access : Type 0 where
  public signed_in admins internal : Access
  counted : Limiter → Access

abbrev pub path_of : Pattern → String
path_of (exact path) = path
path_of (up_to_parameter prefix) = prefix

abbrev pub access_of : String → Access
access_of path =
    if starts_with path "/internal/"
    then internal
    else if starts_with path "/api/admin/"
    then admins
    else if starts_with path "/cal/"
    then counted calendar_reads
    else if str_eq path "/api/auth/request-pin"
    then counted pin_requests
    else if str_eq path "/api/auth/verify-pin"
    then counted pin_verifications
    else if str_eq path "/api/config" || str_eq path "/api/auth/logout"
    then public
    else signed_in

module _ {Address : Type 0} (hash : String → String) (parse_ip : String → Option Address)
    (internal_cidrs : List (Address → Bool)) (v : Visit) (s : Accounts) (l : Limits) where
  abbrev pub as_user : Reply User → Outcome
  as_user (ok u) = ok (some u)
  as_user bad_request = bad_request
  as_user unauthorized = unauthorized
  as_user forbidden = forbidden
  as_user too_many_requests = too_many_requests
  as_user internal_server_error = internal_server_error

  abbrev pub as_admin : Reply User → Outcome
  as_admin (ok u) = if u.is_admin then ok (some u) else forbidden
  as_admin r = as_user r

  abbrev pub outcome : Access → Outcome
  outcome public = ok none
  outcome signed_in = as_user (auth_middleware hash v.now v.cookie s)
  outcome admins = as_admin (auth_middleware hash v.now v.cookie s)
  outcome internal =
      if is_internal hash parse_ip internal_cidrs (parse_ip v.client_ip) then ok none else forbidden
  outcome (counted limiter) =
      if (allowed hash parse_ip internal_cidrs limiter v l).0 then ok none else too_many_requests

  signed_in_lem : (r : Reply User) → (continue r l (λ u. (ok (some u), l))).0 ≡ as_user r
  signed_in_lem (ok u) = refl
  signed_in_lem bad_request = refl
  signed_in_lem unauthorized = refl
  signed_in_lem forbidden = refl
  signed_in_lem too_many_requests = refl
  signed_in_lem internal_server_error = refl

  admin_lem :
      (r : Reply User)
      → (continue r l (λ u. continue (admin_middleware u) l (λ w. (ok (some w), l)))).0 ≡ as_admin r
  unfolding admin_middleware
  admin_lem (ok u) = elim (Bool-cases u.is_admin) [ inl e ↦ rw e refl | inr e ↦ rw e refl ]
  admin_lem bad_request = refl
  admin_lem unauthorized = refl
  admin_lem forbidden = refl
  admin_lem too_many_requests = refl
  admin_lem internal_server_error = refl

  either_lem :
      (b : Bool) (x y : Outcome) (m m' : Limits)
      → (if◌then◌else◌ {A = Outcome × Limits} b (x, m) (y, m')).0 ≡ (if b then x else y)
  either_lem true x y m m' = refl
  either_lem false x y m m' = refl

  counted_lem :
      (limiter : Limiter)
      → (guard hash parse_ip internal_cidrs (limited limiter ∷ []) none v s l).0
        ≡ outcome (counted limiter)
  unfolding guard
  counted_lem limiter =
      let (passes, requests) = allowed hash parse_ip internal_cidrs limiter v l in
      let l' = set_limiter limiter requests l in either_lem passes (ok none) too_many_requests l' l'

  abbrev pub HasOutcome : Route → Type 0
  HasOutcome r =
      (guard hash parse_ip internal_cidrs r.middlewares none v s l).0
      ≡ outcome (access_of (path_of r.pattern))

  -- The routes' guards, whatever the request and the state of the server.
  routes_lem : All HasOutcome routes
  unfolding guard
  routes_lem =
      let user = auth_middleware hash v.now v.cookie s in
      let signed = signed_in_lem user in
      let admin = admin_lem user in
      let inside =
        either_lem (is_internal hash parse_ip internal_cidrs (parse_ip v.client_ip)) (ok none)
          forbidden l l in
      (
        refl,
        (
          counted_lem pin_requests,
          (
            counted_lem pin_verifications,
            (
              refl,
              (
                signed,
                (
                  signed,
                  (
                    signed,
                    (
                      signed,
                      (
                        signed,
                        (
                          signed,
                          (
                            signed,
                            (
                              signed,
                              (
                                signed,
                                (
                                  signed,
                                  (
                                    inside,
                                    (
                                      inside,
                                      (
                                        inside,
                                        (counted_lem calendar_reads, (admin, (admin, (admin, tt)))),
                                      ),
                                    ),
                                  ),
                                ),
                              ),
                            ),
                          ),
                        ),
                      ),
                    ),
                  ),
                ),
              ),
            ),
          ),
        ),
      )

-- The guards of every route come to what the table of its path says, for every request and state of
-- the server: whether the handler runs, for which user, and which status it is refused with.
pub guard-outcome :
    {Address : Type 0} (hash : String → String) (parse_ip : String → Option Address)
    (internal_cidrs : List (Address → Bool)) (v : Visit) (s : Accounts) (l : Limits)
    → All (HasOutcome hash parse_ip internal_cidrs v s l) routes
guard-outcome = routes_lem
