-- ===== src/Admin.antt =====
-- web/src/pages/Admin.tsx: loading the logs and the users, and starting a scrape. The list of logs
-- repeats that of the settings page, ScrapeLogs.antt.
pub mod Loading
pub mod View
mod Tests
use starbies_schedule_sync.Base.{String, Bool, true, false, List, []}
use starbies_schedule_sync.Browser.{Browser, Thrown, Result, ok, err}
use starbies_schedule_sync.Api.Types.{ScrapeLog, AdminUser}
use starbies_schedule_sync.Api.Endpoints.{Network, admin_logs, admin_users, trigger_scrape, api}
use starbies_schedule_sync.ScrapeLogs.{IdSet, none_open, toggle_expand}

pub record Admin : Type 0 where
  pub logs : List ScrapeLog
  pub users : List AdminUser
  pub loading : Bool
  pub expanded_logs : IdSet

abbrev pub mounted : Admin
mounted = record { logs = []; users = []; loading = true; expanded_logs = none_open }

-- The page, whether the promise of the handler is rejected, whether a `load` is due in a second,
-- and the browser.
pub record Handled : Type 0 where
  pub page : Admin
  pub outcome : Result (Unit {0})
  pub reload : Bool
  pub browser : Browser

-- `then` and `finally` of the promise of both; there is no `catch`.
loaded : Result (List ScrapeLog) → Result (List AdminUser) → Admin → Admin
loaded (ok logs) (ok users) s = record s { logs = logs; users = users; loading = false }
loaded _ _ s = record s { loading = false }

rejects : Result (List ScrapeLog) → Result (List AdminUser) → Result (Unit {0})
rejects (err e) _ = err e
rejects (ok _) (err e) = err e
rejects (ok _) (ok _) = ok tt

started {ℓ} : {A : Type ℓ} → Admin → Result A × Browser → Handled
started s (ok _, b) = record { page = s; outcome = ok tt; reload = true; browser = b }
started s (err e, b) = record { page = s; outcome = err e; reload = false; browser = b }

module _ (net : Network) (b : Browser) where
  unfoldable pub load : Admin → Handled
  unfolding loaded rejects
  load s =
      let (logs, b') = api net admin_logs b in
      let (users, b'') = api net admin_users b' in
      record {
        page = loaded logs users s;
        outcome = rejects logs users;
        reload = false;
        browser = b'';
      }

  unfoldable pub trigger : String → Admin → Handled
  unfolding started
  trigger user_id s = started s (api net (trigger_scrape user_id) b)

unfoldable pub toggle : String → Admin → Admin
toggle id s = record s { expanded_logs = toggle_expand id s.expanded_logs }
