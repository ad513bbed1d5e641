-- ===== src/App/Boot/Order.antt =====
-- The two requests that start together may settle in either order.
use starbies_schedule_sync.Base.{Bool, Option, ◌≡◌, arith}
use starbies_schedule_sync.Browser.{Browser, Async, pure, ◌>>=◌}
use starbies_schedule_sync.Api.Types.{User}
use starbies_schedule_sync.Api.Endpoints.{Network, redirects, api}
use starbies_schedule_sync.App.Boot.{ask_dev_mode, ask_me}

abbrev pub config_first : Network → Async (Bool × Option User)
config_first net = do dev_mode ← ask_dev_mode net; found ← ask_me net; pure (dev_mode, found)

abbrev pub me_first : Network → Async (Bool × Option User)
me_first net = do found ← ask_me net; dev_mode ← ask_dev_mode net; pure (dev_mode, found)

-- Whatever the two replies are, both orders give the same values and leave the browser the same.
pub config_first-eq-me_first : (net : Network) (b : Browser) → config_first net b ≡ me_first net b
unfolding api redirects
config_first-eq-me_first net b = ground arith
