-- ===== src/App/Routes/Access.antt =====
-- Who sees which page: the guards and redirects against a table.
use starbies_schedule_sync.Base.{
  ℕ, zero, suc, String, ◌≡◌, ◌↔◌, refl, Bool, true, false, arith, if◌then◌else◌,
}
use starbies_schedule_sync.Api.Types.{User}
use starbies_schedule_sync.App.Boot.{Session, loading, signed_out, signed_in, App}
use starbies_schedule_sync.App.Routes.{Route, Router, Page, View, blank, page, follow}

-- The page of a signed-in user's home.
abbrev pub home : User → Bool → Page
home user true = Page.dashboard user.timezone
home user false = Page.onboarding

-- Who sees which page, with no redirects in it.
abbrev pub allowed : Session → Bool → Route → View
allowed loading onboarded route = blank
allowed session onboarded Route.root = page Page.landing
allowed session onboarded Route.wildcard = page Page.landing
allowed session onboarded Route.privacy = page Page.privacy
allowed signed_out onboarded _ = page Page.login
allowed (signed_in user) onboarded Route.setup = page Page.onboarding
allowed (signed_in user) true Route.settings = page Page.settings
allowed (signed_in user) onboarded Route.admin =
    page (if user.is_admin then Page.admin else home user onboarded)
allowed (signed_in user) onboarded _ = page (home user onboarded)

allowed-admin :
    (session : Session) (onboarded : Bool) (route : Route)
    → (allowed session onboarded route ≡ page Page.admin) ↔ (
        (route ≡ Route.admin)
        × ((user : User) × (session ≡ signed_in user) × (user.is_admin ≡ true)))
allowed-admin loading onboarded route = (λ h. cc, λ h. cc (h.1.1))
allowed-admin signed_out onboarded route = (λ h. ground arith, λ h. cc (h.1.1))
allowed-admin (signed_in user) onboarded route =
    (λ h. (ground arith, (user, refl, ground arith)), λ h. ground arith)

module _ (router : Router) where
  settles :
      (n : ℕ) (session : Session) (onboarded : Bool) (route : Route)
      → follow router (suc (suc n)) (record { session = session; onboarded = onboarded }) route
        ≡ allowed session onboarded route
  unfolding follow
  settles zero session onboarded route =
      ground
        (arith, router.match-root, router.match-login, router.match-setup, router.match-dashboard)
  settles (suc n) session onboarded route =
      ground
        (arith, router.match-root, router.match-login, router.match-setup, router.match-dashboard)

  -- Two redirects are enough, and more change nothing: every path in every state ends at a page, or
  -- at nothing while the session is not known, and it is the one that the table of access allows.
  pub follow-allowed :
      (n : ℕ) (app : App) (path : String)
      → follow router (suc (suc n)) app (router.match path)
        ≡ allowed app.session app.onboarded (router.match path)
  follow-allowed n app path = settles n app.session app.onboarded (router.match path)

  -- The admin page is shown exactly to a signed-in user with the admin flag, at a path of the route.
  pub follow-admin_iff :
      (n : ℕ) (app : App) (path : String)
      → (follow router (suc (suc n)) app (router.match path) ≡ page Page.admin) ↔ (
          (router.match path ≡ Route.admin)
          × ((user : User) × (app.session ≡ signed_in user) × (user.is_admin ≡ true)))
  follow-admin_iff n app path =
      rw (follow-allowed n app path) (allowed-admin app.session app.onboarded (router.match path))
