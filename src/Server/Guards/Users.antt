-- ===== src/Server/Guards/Users.antt =====
-- For whom a handler runs that is given a user.
use starbies_schedule_sync.Base.{
  ℕ, ◌≡◌, ◌<◌, refl, sym, ◌∙◌, inl, inr, String, Bool, Bool-cases, Option, none, some, List, [],
  ◌∷◌, Has, All, str_eq,
}
use starbies_schedule_sync.Server.Accounts.{
  Accounts, Reply, User, auth_middleware, bad_request, forbidden, get_session_user,
  internal_server_error, ok, too_many_requests, unauthorized, unix, user_or_stop,
}
use starbies_schedule_sync.Server.Accounts.SignIn.{Request, opened, run}
use starbies_schedule_sync.Server.Accounts.SignIn.History.{IsSignedIn}
use starbies_schedule_sync.Server.Accounts.SignIn.Origin.{get_session_user-IsSignedIn}
use starbies_schedule_sync.Server.Routes.{Route, routes}
use starbies_schedule_sync.Server.Guards.{Limits, Visit, guard, is_internal, allowed}
use starbies_schedule_sync.Server.Guards.Access.{
  Access, HasOutcome, access_of, admins, as_admin, as_user, counted, guard-outcome, internal,
  outcome, path_of, public, signed_in,
}

Has-All : (P : Route → Type 0) (r : Route) (rs : List Route) → All P rs → Has r rs → P r
Has-All P r [] a h = absurd h
Has-All P r (r' ∷ rs) a (inl same) = rw same (a.0)
Has-All P r (r' ∷ rs) a (inr h) = Has-All P r rs (a.1) h

user_or_stop-ok : (found : Option User) (u : User) → user_or_stop found ≡ ok u → found ≡ some u
user_or_stop-ok none u h = absurd cc
user_or_stop-ok (some w) u h = cc

abbrev HasSession : (String → String) → ℕ → Option String → Accounts → User → Type 0
HasSession hash now cookie s u =
    (token : String) × (cookie ≡ some token) × (get_session_user hash now token s ≡ some u)

auth_middleware-ok :
    (hash : String → String) (now : ℕ) (cookie : Option String) (s : Accounts) (u : User)
    → auth_middleware hash now cookie s ≡ ok u
    → HasSession hash now cookie s u
unfolding auth_middleware
auth_middleware-ok hash now none s u h = absurd cc
auth_middleware-ok hash now (some token) s u h = elim (Bool-cases (str_eq token "")) [
  | inl e ↦ absurd (cc (rw e at h))
  | inr e ↦ (token, refl, user_or_stop-ok (get_session_user hash now token s) u (rw e at h))
]

module _ {Address : Type 0} (hash : String → String) (parse_ip : String → Option Address)
    (internal_cidrs : List (Address → Bool)) (v : Visit) (s : Accounts) (l : Limits)
    (u : User) where
  as_user-ok :
      (r : Reply User) → as_user hash parse_ip internal_cidrs v s l r ≡ ok (some u) → r ≡ ok u
  as_user-ok (ok w) h = cc
  as_user-ok bad_request h = absurd cc
  as_user-ok unauthorized h = absurd cc
  as_user-ok forbidden h = absurd cc
  as_user-ok too_many_requests h = absurd cc
  as_user-ok internal_server_error h = absurd cc

  as_admin-ok :
      (r : Reply User) → as_admin hash parse_ip internal_cidrs v s l r ≡ ok (some u) → r ≡ ok u
  as_admin-ok (ok w) h = elim (Bool-cases w.is_admin) [
    | inl e ↦ cc (rw e at h)
    | inr e ↦ absurd (cc (rw e at h))
  ]
  as_admin-ok bad_request h = absurd cc
  as_admin-ok unauthorized h = absurd cc
  as_admin-ok forbidden h = absurd cc
  as_admin-ok too_many_requests h = absurd cc
  as_admin-ok internal_server_error h = absurd cc

  outcome-ok :
      (a : Access)
      → outcome hash parse_ip internal_cidrs v s l a ≡ ok (some u)
      → auth_middleware hash v.now v.cookie s ≡ ok u
  outcome-ok public h = absurd cc
  outcome-ok signed_in h = as_user-ok (auth_middleware hash v.now v.cookie s) h
  outcome-ok admins h = as_admin-ok (auth_middleware hash v.now v.cookie s) h
  outcome-ok internal h =
      absurd (elim (Bool-cases (is_internal hash parse_ip internal_cidrs (parse_ip v.client_ip))) [
        | inl e ↦ cc (rw e at h)
        | inr e ↦ cc (rw e at h)
      ])
  outcome-ok (counted limiter) h =
      absurd (elim (Bool-cases ((allowed hash parse_ip internal_cidrs limiter v l).0)) [
        | inl e ↦ cc (rw e at h)
        | inr e ↦ cc (rw e at h)
      ])

-- After any history of sign-ins, a handler of a route runs for a user only if the request carries a
-- token that was given out, by its hash, when a PIN was verified for that user's email. That PIN had
-- been stored for the email, in some spelling of its case, at most ten minutes before, with no other
-- PIN stored and fewer than five wrong ones checked in between. The end of the session, 90 days
-- after in whole seconds, is still ahead, and nobody has signed out with the token or deleted the
-- account since.
pub guard-IsSignedIn :
    {Address : Type 0} (to_lower hash : String → String) (is_location : String → Bool)
    (parse_ip : String → Option Address) (internal_cidrs : List (Address → Bool))
    (rs : List Request) (v : Visit) (l : Limits) (r : Route) (u : User)
    → Has r routes
    → (guard hash parse_ip internal_cidrs r.middlewares none v
        (run to_lower hash is_location rs opened)
        l).0
      ≡ ok (some u)
    → (token : String) × (expires_at : ℕ) × (v.cookie ≡ some token)
      × IsSignedIn to_lower hash is_location rs (hash token) u.id u.email expires_at
      × (unix v.now < expires_at)
guard-IsSignedIn to_lower hash is_location parse_ip internal_cidrs rs v l r u mine h =
    let s = run to_lower hash is_location rs opened in
    let table =
      Has-All (HasOutcome hash parse_ip internal_cidrs v s l) r routes
        (guard-outcome hash parse_ip internal_cidrs v s l) mine in
    let passed =
      outcome-ok hash parse_ip internal_cidrs v s l u (access_of (path_of r.pattern))
        (sym table ∙ h) in
    let (token, held, found) = auth_middleware-ok hash v.now v.cookie s u passed in
    let (expires_at, signed, live) =
      get_session_user-IsSignedIn to_lower hash is_location rs v.now token u found in
    (token, expires_at, held, signed, live)
