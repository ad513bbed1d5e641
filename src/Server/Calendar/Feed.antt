-- ===== src/Server/Calendar/Feed.antt =====
-- Whose shifts are shown: `queryUserShifts`, `serveICS`, `getICSURL` and `getSchedule`.
pub mod Order
pub mod Serving
use starbies_schedule_sync.Base.{
  ℕ, ◌+◌, ◌*◌, String, Bool, true, false, not, ◌&&◌, Option, none, some, List, [], ◌∷◌, ◌++◌,
  if◌then◌else◌, str_eq, codes, or_else,
}
use starbies_schedule_sync.Base.Int.{ℤ, pos, ◌-ℤ◌, ltb_ℤ}
use starbies_schedule_sync.Scraper.Schedule.{Decimal}
use starbies_schedule_sync.Server.Tables.{select}
use starbies_schedule_sync.Server.Accounts.{User}
use starbies_schedule_sync.Server.Calendar.{Shift, Text, generate_ics, is_empty, text_eq}

unfoldable pub filter : (Shift → Bool) → List Shift → List Shift
filter test [] = []
filter test (sh ∷ shs) = let rest = filter test shs in if test sh then sh ∷ rest else rest

-- `ORDER BY start_time ASC`
unfoldable pub insert : Shift → List Shift → List Shift
insert sh [] = sh ∷ []
insert sh (t ∷ ts) =
    let rest = insert sh ts in if ltb_ℤ t.start_time sh.start_time then t ∷ rest else sh ∷ t ∷ ts

unfoldable pub sort : List Shift → List Shift
unfolding insert
sort [] = []
sort (sh ∷ shs) = insert sh (sort shs)

-- `unixepoch('now', '-7 days')`
abbrev pub week_before : ℕ → ℤ
week_before now = pos now -ℤ pos (7 * 24 * 3600)

abbrev pub is_shown : ℕ → String → Shift → Bool
is_shown now user_id sh = str_eq sh.user_id user_id && ltb_ℤ (week_before now) sh.end_time

unfoldable pub query_user_shifts : ℕ → String → List Shift → List Shift
unfolding sort filter
query_user_shifts now user_id shifts = sort (filter (is_shown now user_id) shifts)

-- `strings.TrimSuffix(…, ".ics")`
unfoldable pub trim_suffix : Text → Text
unfolding codes
trim_suffix [] = []
trim_suffix (c ∷ s) =
    let rest = trim_suffix s in if text_eq (c ∷ s) (codes ".ics") then [] else c ∷ rest

abbrev pub has_ics_token : Text → User → Bool
has_ics_token token u = text_eq (codes u.ics_token) token

-- `getICSURL`, with the variable BASE_URL of the environment, which is empty where it is not set
abbrev pub base_url : Text → Text
base_url env = if is_empty env then codes "http://localhost:8080" else env

unfoldable pub get_ics_url : Text → User → Text
unfolding codes
get_ics_url env u = base_url env ++ (codes "/cal/" ++ (codes u.ics_token ++ codes ".ics"))

-- The times of `scrape_schedule`, where the user has a row
pub record Schedule : Type 0 where
  pub shifts : List Shift
  pub last_scraped_at : Option ℕ
  pub next_scrape_at : Option ℕ

abbrev pub last_of : Option (ℕ × Option ℕ) → Option ℕ
last_of none = none
last_of (some (next, last)) = last

abbrev pub next_of : Option (ℕ × Option ℕ) → Option ℕ
next_of none = none
next_of (some (next, last)) = some next

-- `scrape_schedule` gives the next time and, once there was one, the last.
unfoldable pub get_schedule : ℕ → User → (String → Option (ℕ × Option ℕ)) → List Shift → Schedule
unfolding query_user_shifts
get_schedule now u scrape_schedule shifts = record {
  shifts = query_user_shifts now u.id shifts;
  last_scraped_at = last_of (scrape_schedule u.id);
  next_scrape_at = next_of (scrape_schedule u.id);
}

module _ (format_time : ℤ → Text) (format_hours : Decimal → Text) (clock : ℕ → ℤ) (now : ℕ) where
  abbrev pub feed_of : List Shift → Option User → Option Text
  feed_of shifts none = none
  feed_of shifts (some u) =
      some (generate_ics format_time format_hours clock (query_user_shifts now u.id shifts))

  -- `none` for the status 404.
  unfoldable pub serve_ics : Text → List User → List Shift → Option Text
  unfolding trim_suffix select query_user_shifts generate_ics codes
  serve_ics icsfile users shifts =
      let token = trim_suffix icsfile in
      if is_empty token then none else feed_of shifts (select (has_ics_token token) users)
