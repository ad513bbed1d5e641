-- ===== src/Settings.antt =====
-- web/src/pages/Settings.tsx: the handlers of the page. The log list is in ScrapeLogs.antt.
-- A handler gives the page's state, whether it throws, and the browser.
pub mod Handlers
pub mod View
use starbies_schedule_sync.Base.{String, Bool, true, false, Option, none, some, List, []}
use starbies_schedule_sync.Browser.{Browser, Thrown, Result, ok, err}
use starbies_schedule_sync.Api.Types.{ScrapeLog, CredentialsFormData}
use starbies_schedule_sync.Api.Request.{go_to, error_message}
use starbies_schedule_sync.Api.Endpoints.{
  Network, logout, update_credentials, delete_account, scrape_logs, api,
}
use starbies_schedule_sync.ScrapeLogs.{IdSet, none_open, toggle_expand}

pub record Settings : Type 0 where
  -- the two keys of `credResult`
  pub error : String
  pub success : Bool
  pub deleting : Bool
  pub logs : List ScrapeLog
  pub expanded_logs : IdSet

abbrev pub mounted : Settings
mounted = record {
  error = "";
  success = false;
  deleting = false;
  logs = [];
  expanded_logs = none_open;
}

pub record Handled : Type 0 where
  pub page : Settings
  pub outcome : Result (Unit {0})
  -- where `navigate` goes
  pub target : Option String
  pub browser : Browser

abbrev done : Settings → Browser → Handled
done s b = record { page = s; outcome = ok tt; target = none; browser = b }

abbrev threw : Thrown → Settings → Browser → Handled
threw e s b = record { page = s; outcome = err e; target = none; browser = b }

updated {ℓ} : {A : Type ℓ} → Settings → Result A × Browser → Handled
updated s (ok _, b) = done (record s { error = ""; success = true }) b
updated s (err e, b) = threw e (record s { error = error_message e; success = false }) b

deleted {ℓ} : {A : Type ℓ} → Settings → Result A × Browser → Handled
deleted s (ok _, b) = done s (go_to "/login" b)
deleted s (err e, b) = done (record s { deleting = false }) b

logged_out {ℓ} : {A : Type ℓ} → Settings → Result A × Browser → Handled
logged_out s (ok _, b) = record { page = s; outcome = ok tt; target = some "/login"; browser = b }
logged_out s (err e, b) = threw e s b

listed : Settings → Result (List ScrapeLog) × Browser → Handled
listed s (ok logs, b) = done (record s { logs = logs }) b
listed s (err e, b) = done s b

module _ (net : Network) (b : Browser) where
  -- The effect on mount.
  unfoldable pub load_logs : Settings → Handled
  unfolding listed
  load_logs s = listed s (api net scrape_logs b)

  unfoldable pub handle_update_credentials : CredentialsFormData → Settings → Handled
  unfolding updated
  handle_update_credentials form_data s =
      updated (record s { error = ""; success = false }) (api net (update_credentials form_data) b)

  unfoldable pub handle_delete_account : Settings → Handled
  unfolding deleted
  handle_delete_account s = deleted (record s { deleting = true }) (api net delete_account b)

  unfoldable pub handle_logout : Settings → Handled
  unfolding logged_out
  handle_logout s = logged_out s (api net logout b)

unfoldable pub toggle : String → Settings → Settings
toggle id s = record s { expanded_logs = toggle_expand id s.expanded_logs }
