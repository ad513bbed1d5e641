-- ===== src/App/Routes.antt =====
-- The routes and guards of web/src/App.tsx. The router is a parameter: it says which route of the
-- table a path matches, of which the source relies on the paths that it navigates to.
pub mod Access
use starbies_schedule_sync.Base.{
  ℕ, zero, suc, String, ◌≡◌, Bool, true, false, Option, none, some, if◌then◌else◌,
}
use starbies_schedule_sync.Api.Types.{User}
use starbies_schedule_sync.App.Boot.{Session, loading, signed_out, signed_in, App}

-- The `<Route>` elements, in order; the last has the path "*".
pub data Route : Type 0 where
  root privacy login setup dashboard settings admin wildcard : Route

pub record Router : Type 0 where
  pub match : String → Route
  pub match-root : match "/" ≡ root
  pub match-login : match "/login" ≡ login
  pub match-setup : match "/setup" ≡ setup
  pub match-dashboard : match "/dashboard" ≡ dashboard

pub data Page : Type 0 where
  landing privacy login onboarding : Page
  dashboard : (user_timezone : String) → Page
  settings admin : Page

-- What an element renders to: nothing, `<Navigate to replace />`, or a page.
pub data View : Type 0 where
  blank : View
  navigate : String → View
  page : Page → View

abbrev pub is_signed_in : Session → Bool
is_signed_in (signed_in _) = true
is_signed_in _ = false

-- `!!user?.is_admin`
abbrev pub is_admin : Session → Bool
is_admin (signed_in user) = user.is_admin
is_admin _ = false

-- `user?.timezone ?? 'America/Chicago'`
abbrev pub timezone_of : Session → String
timezone_of (signed_in user) = user.timezone
timezone_of _ = "America/Chicago"

-- `<Guard ok redirectTo>children</Guard>`
unfoldable pub guard : Bool → String → View → View
guard ok redirect_to children = if ok then children else navigate redirect_to

unfoldable pub element : App → Route → View
unfolding guard
element app root = page landing
element app privacy = page privacy
element app login =
    if is_signed_in app.session
    then navigate (if app.onboarded then "/dashboard" else "/setup")
    else page login
element app setup = guard (is_signed_in app.session) "/login" (page onboarding)
element app dashboard =
    guard (is_signed_in app.session) "/login"
      (guard app.onboarded "/setup" (page (dashboard (timezone_of app.session))))
element app settings =
    guard (is_signed_in app.session) "/login" (guard app.onboarded "/setup" (page settings))
element app admin =
    guard (is_signed_in app.session) "/login"
      (guard (is_admin app.session) "/dashboard" (page admin))
element app wildcard = navigate "/"

abbrev hide : Session → View → View
hide loading view = blank
hide _ view = view

-- `if (user === undefined) return null`, else the element of the route.
unfoldable pub render : App → Route → View
unfolding element
render app route = hide app.session (element app route)

module _ (router : Router) where
  -- What stands on the screen after at most so many renderings, each `Navigate` followed.
  unfoldable pub follow : ℕ → App → Route → View
  unfolding render
  follow zero app route = render app route
  follow (suc n) app route = elim (render app route) [
    | navigate to ↦ follow n app (router.match to)
    | blank ↦ blank
    | page p ↦ page p
  ]
