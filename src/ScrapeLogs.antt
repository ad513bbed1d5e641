-- ===== src/ScrapeLogs.antt =====
-- The list of scrape logs in web/src/pages/Settings.tsx, which web/src/pages/Admin.tsx repeats:
-- badges, durations, details, and the set of rows that are open.
-- `Date` and `JSON.parse` are parameters.
pub mod Details
pub mod Durations
pub mod Rows
mod Tests
use starbies_schedule_sync.Base.{
  ℕ, suc, ◌+◌, ◌-◌, ◌/◌, String, Bool, true, false, not, ◌&&◌, ◌||◌, Option, none, some, List, [],
  ◌∷◌, ltb, leb, if◌then◌else◌, length, str_eq,
}
use starbies_schedule_sync.Base.Int.{ℤ, pos, negsuc, sub_ℕ, ◌-ℤ◌}
use starbies_schedule_sync.Api.Types.{ScrapeLog}

pub data Badge : Type 0 where
  success_badge failed_badge running_badge : Badge

unfoldable pub status_badge : String → Badge
status_badge status =
    if str_eq status "success"
    then success_badge
    else if str_eq status "failure"
    then failed_badge
    else running_badge

-- `Math.round(ms / 1000)`: the nearest integer, halves upwards.
unfoldable pub round_seconds : ℤ → ℤ
round_seconds (pos n) = pos ((n + 500) / 1000)
round_seconds (negsuc n) = if leb (suc n) 500 then pos 0 else sub_ℕ 0 ((suc n + 499) / 1000)

-- The text of `duration`: "…", a number of seconds, or "NaNs".
pub data Duration : Type 0 where
  unfinished : Duration
  seconds : ℤ → Duration
  not_a_number : Duration

between : Option ℤ → Option ℤ → Duration
unfolding round_seconds
between (some start) (some end) = seconds (round_seconds (end -ℤ start))
between _ _ = not_a_number

unfoldable pub duration : (String → Option ℤ) → String → Option String → Duration
unfolding between
duration date start none = unfinished
duration date start (some end) =
    if str_eq end "" then unfinished else between (date start) (date end)

-- `JSON.parse` throws, or gives an array, or another value.
pub data Parsed : Type 0 where
  syntax_error : Parsed
  array : List String → Parsed
  other_value : Parsed

abbrev array_of : Parsed → Option (List String)
array_of (array xs) = some xs
array_of _ = none

unfoldable pub try_parse_json : (String → Parsed) → Option String → Option (List String)
try_parse_json parse none = none
try_parse_json parse (some value) = if str_eq value "" then none else array_of (parse value)

-- A list that is there and not empty.
abbrev non_empty : Option (List String) → Option (List String)
non_empty (some (x ∷ xs)) = some (x ∷ xs)
non_empty _ = none

-- The log lines and the screenshots that are shown, each if there are any.
pub record LogDetails : Type 0 where
  pub logs : Option (List String)
  pub screenshots : Option (List String)

abbrev details_of : Option (List String) → Option (List String) → Option LogDetails
details_of none none = none
details_of logs screenshots = some (record { logs = logs; screenshots = screenshots })

unfoldable pub scrape_log_details : (String → Parsed) → ScrapeLog → Option LogDetails
unfolding try_parse_json
scrape_log_details parse log =
    details_of (non_empty (try_parse_json parse log.log_output))
      (non_empty (try_parse_json parse log.failure_screenshots))

-- `s && s !== '[]'`
abbrev holds_items : Option String → Bool
holds_items none = false
holds_items (some s) = not (str_eq s "") && not (str_eq s "[]")

unfoldable pub has_details : ScrapeLog → Bool
has_details log = holds_items log.log_output || holds_items log.failure_screenshots

-- The set `expandedLogs`, by its test `has`.
abbrev pub IdSet : Type 0
IdSet = String → Bool

abbrev pub none_open : IdSet
none_open id = false

abbrev delete : String → IdSet → IdSet
delete id set j = if str_eq id j then false else set j

abbrev insert : String → IdSet → IdSet
insert id set j = if str_eq id j then true else set j

unfoldable pub toggle_expand : String → IdSet → IdSet
toggle_expand id set = if set id then delete id set else insert id set

-- The button of a row and the details under it.
pub data Toggle : Type 0 where
  no_button show_details : Toggle
  hide_details : Option LogDetails → Toggle

unfoldable pub toggle_of : (String → Parsed) → IdSet → ScrapeLog → Toggle
unfolding has_details scrape_log_details
toggle_of parse open_logs log =
    if not (has_details log)
    then no_button
    else if open_logs log.id
    then hide_details (scrape_log_details parse log)
    else show_details
