-- ===== src/App/Boot.antt =====
-- The effect of `App` on mount, and `onLogin`, in web/src/App.tsx.
-- The source starts the two requests of `Promise.all` together; the model makes one after the
-- other, and App/Boot/Order.antt compares the two orders.
pub mod Order
pub mod Outcomes
use starbies_schedule_sync.Base.{
  String, Bool, true, false, not, ◌&&◌, Option, none, some, if◌then◌else◌, str_eq,
}
use starbies_schedule_sync.Browser.{Async, pure, catch, ◌>>=◌, ◌>>◌}
use starbies_schedule_sync.Api.Types.{User, Config, OnboardingStatus}
use starbies_schedule_sync.Api.Endpoints.{
  Network, config, me, dev_login, update_timezone, onboarding_status, api,
}

-- The state `user`: undefined, null, or a user.
pub data Session : Type 0 where
  loading signed_out : Session
  signed_in : User → Session

pub record App : Type 0 where
  pub session : Session
  pub onboarded : Bool

unfoldable pub initial : App
initial = record { session = loading; onboarded = false }

module _ (net : Network) where
  -- `api.config().catch(() => ({ dev_mode: false }))`, read at its one key
  abbrev pub ask_dev_mode : Async Bool
  ask_dev_mode = catch (do c ← api net config; pure (c.dev_mode)) (λ _. pure false)

  abbrev pub ask_me : Async (Option User)
  ask_me = catch (do u ← api net me; pure (some u)) (λ _. pure none)

  abbrev pub ask_dev_login : Async (Option User)
  ask_dev_login = catch (do u ← api net dev_login; pure (some u)) (λ _. pure none)

  -- `api.onboardingStatus().catch(…)`, read at `has_successful_scrape`
  abbrev pub ask_onboarded : Async Bool
  ask_onboarded =
      catch (do s ← api net onboarding_status; pure (s.has_successful_scrape)) (λ _. pure false)

  -- `if (!me && config.dev_mode) me = …`
  abbrev pub or_dev_login : Bool → Option User → Async (Option User)
  or_dev_login true none = ask_dev_login
  or_dev_login _ user = pure user

  -- `api.settings.updateTimezone(browserTz).catch(() => {})`
  abbrev pub ask_update : String → Async (Unit {0})
  ask_update browser_tz =
      catch (do updated ← api net (update_timezone browser_tz); pure tt) (λ _. pure tt)

  -- The user keeps the browser's time zone also if the update fails.
  abbrev pub update_zone : String → User → Async User
  update_zone browser_tz user = do
    ask_update browser_tz
    pure (record user { timezone = browser_tz })

  abbrev pub sync_timezone : String → User → Async User
  sync_timezone browser_tz user =
      if not (str_eq browser_tz "") && not (str_eq user.timezone browser_tz)
      then update_zone browser_tz user
      else pure user

  abbrev pub enter : String → Option User → Async App
  enter browser_tz none = pure (record { session = signed_out; onboarded = false })
  enter browser_tz (some user) = do
    synced ← sync_timezone browser_tz user
    onboarded ← ask_onboarded
    pure (record { session = signed_in synced; onboarded = onboarded })

  -- `setOnboarded` and `setUser` from the initial state.
  unfoldable pub boot : String → Async App
  boot browser_tz = do
    dev_mode ← ask_dev_mode
    found ← ask_me
    user ← or_dev_login dev_mode found
    enter browser_tz user

  -- `onLogin`
  unfoldable pub on_login : User → Async App
  on_login user = do
    onboarded ← ask_onboarded
    pure (record { session = signed_in user; onboarded = onboarded })
