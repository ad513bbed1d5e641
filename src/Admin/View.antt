-- ===== src/Admin/View.antt =====
-- What web/src/pages/Admin.tsx renders: "Loading…", or the users and the scrape logs.
-- `slice` counts bytes; the ids of users are ASCII.
use Prim.Native.String.{slice}
use starbies_schedule_sync.Base.{
  ℕ, String, ◌≡◌, Option, none, some, List, [], arith, map, length, or_else, if◌then◌else◌,
}
use starbies_schedule_sync.Base.Int.{ℤ}
use starbies_schedule_sync.Browser.{Browser}
use starbies_schedule_sync.Api.Types.{ScrapeLog, AdminUser}
use starbies_schedule_sync.Api.Endpoints.{Network, admin_logs, admin_users}
use starbies_schedule_sync.Api.Answers.{answer_to}
use starbies_schedule_sync.ScrapeLogs.{Badge, status_badge, Parsed, IdSet}
use starbies_schedule_sync.ScrapeLogs.Rows.{Row, row, non_blank}
use starbies_schedule_sync.Admin.{Admin, mounted, load}
use starbies_schedule_sync.Admin.Loading.{load_answers}

-- The button "Scrape now" stands in each row of a user.
pub record UserRow : Type 0 where
  pub email : String
  pub shift_count : ℕ
  pub badge : Option Badge

pub record LogRow : Type 0 where
  pub name : String
  pub row : Row

-- A list without rows shows a text in their place.
pub data View : Type 0 where
  is_loading : View
  lists : (title_count : ℕ) → List UserRow → List LogRow → View

abbrev pub badge_of : Option String → Option Badge
badge_of none = none
badge_of (some status) = some (status_badge status)

abbrev pub user_row : AdminUser → UserRow
user_row u = record {
  email = u.email;
  shift_count = u.shift_count;
  badge = badge_of (non_blank u.last_status);
}

load_keeps_open :
    (net : Network) (b : Browser) (s : Admin) → (load net b s).page.expanded_logs ≡ s.expanded_logs
unfolding load
load_keeps_open net b s = ground arith

module _ (locale : String → String) (date : String → Option ℤ) (parse : String → Parsed) where
  abbrev pub log_row : IdSet → ScrapeLog → LogRow
  log_row open_logs log = record {
    name = or_else log.email (slice log.user_id 0 8);
    row = row locale date parse open_logs log;
  }

  unfoldable pub render : Admin → View
  render s =
      if s.loading
      then is_loading
      else lists (length s.users) (map user_row s.users) (map (log_row s.expanded_logs) s.logs)

  -- What the page shows of the lists that the server answers with, if it answers both requests.
  abbrev pub lists_of : Option (List ScrapeLog) → Option (List AdminUser) → View
  lists_of (some logs) (some users) =
      lists (length users) (map user_row users) (map (log_row mounted.expanded_logs) logs)
  lists_of _ _ = lists 0 [] []

  -- After its first load the page shows the users and the logs that the server answered with, and
  -- two empty lists if one of the two requests failed; it is not loading in either case.
  pub render-load :
      (net : Network) (b : Browser)
      → render (load net b mounted).page
        ≡ lists_of (answer_to net admin_logs) (answer_to net admin_users)
  unfolding render
  render-load net b = ground (arith, load_answers net b mounted, load_keeps_open net b mounted)
