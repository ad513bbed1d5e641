-- ===== src/App/Tests.antt =====
-- The start of the client, its routes, and the way back, on concrete replies.
use Prim.Native.String.{◌++◌}
use starbies_schedule_sync.Base.{
  String, ◌≡◌, ◌≢◌, refl, false, none, some, suc, zero, if◌then◌else◌, str_eq,
}
use starbies_schedule_sync.Browser.{ok}
use starbies_schedule_sync.App.Boot.{signed_in, App, boot}
use starbies_schedule_sync.App.Boot.Outcomes.{entered, identified, boot_lem}
use starbies_schedule_sync.App.Routes.{Route, Router, Page, page, follow}
use starbies_schedule_sync.App.Routes.Access.{allowed, follow-allowed}
use starbies_schedule_sync.App.ReturnPath.{
  return_path_redirect, after_barrier, return_path_redirect-handle_bot_barrier,
}
use starbies_schedule_sync.Fixtures.{server, ann, at_schedule}

-- A router that knows each path of the table as it is written.
abbrev route_at : String → Route
route_at path =
    if str_eq path "/"
    then Route.root
    else if str_eq path "/privacy"
    then Route.privacy
    else if str_eq path "/login"
    then Route.login
    else if str_eq path "/setup"
    then Route.setup
    else if str_eq path "/dashboard"
    then Route.dashboard
    else if str_eq path "/settings"
    then Route.settings
    else if str_eq path "/admin"
    then Route.admin
    else Route.wildcard

abbrev router : Router
router = record {
  match = route_at;
  match-root = refl;
  match-login = refl;
  match-setup = refl;
  match-dashboard = refl;
}

abbrev new_user : App
new_user = record { session = signed_in ann; onboarded = false }

follow-allowed_example :
    follow router (suc (suc zero)) new_user (router.match "/admin")
    ≡ allowed new_user.session new_user.onboarded (router.match "/admin")
follow-allowed_example = follow-allowed router 0 new_user "/admin"

shows_setup : follow router 2 new_user Route.admin ≡ page Page.onboarding
unfolding follow
shows_setup = refl

boot_lem_example :
    (boot server "America/Denver" at_schedule).0
    ≡ ok (entered server "America/Denver" (identified server))
boot_lem_example = boot_lem server "America/Denver" at_schedule

not_empty : at_schedule.pathname ++ at_schedule.search ≢ ""
not_empty h = cc

not_root : at_schedule.pathname ++ at_schedule.search ≢ "/"
not_root h = cc

return_path_redirect-handle_bot_barrier_example :
    let effect = return_path_redirect false (after_barrier at_schedule) in
    (effect.target ≡ some (at_schedule.pathname ++ at_schedule.search))
    × (effect.browser.return_path ≡ none)
    × ((return_path_redirect effect.checked effect.browser).target ≡ none)
return_path_redirect-handle_bot_barrier_example =
    return_path_redirect-handle_bot_barrier at_schedule not_empty not_root
