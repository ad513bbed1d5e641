-- ===== src/Dashboard.antt =====
-- web/src/pages/Dashboard.tsx: relative times, the shifts shown, and the two requests on mount.
-- `Date` is a parameter: the milliseconds that a text stands for, or none for an invalid date.
pub mod RelativeTimes
pub mod Shifts
pub mod Loading
mod Tests
use starbies_schedule_sync.Base.{
  ℕ, suc, ◌+◌, ◌-◌, ◌/◌, ◌%◌, String, Bool, true, false, Option, none, some, List, [], ◌∷◌, reverse,
  ltb, if◌then◌else◌, length, drop, str_eq,
}
use starbies_schedule_sync.Base.Int.{ℤ, pos, negsuc, ◌-ℤ◌, ltb_ℤ, leb_ℤ}
use starbies_schedule_sync.Browser.{Browser, Result, ok, err, Async}
use starbies_schedule_sync.Api.Types.{Shift, ScheduleResponse}
use starbies_schedule_sync.Api.Endpoints.{Network, schedule, ics_url, api}

abbrev pub Dates : Type 0
Dates = String → Option ℤ

-- The texts of `formatRelative`, one constructor for each template; `on_date` is the locale's date.
pub data Relative : Type 0 where
  never any_moment : Relative
  in_minutes in_hours : ℕ → Relative
  in_hours_minutes : ℕ → ℕ → Relative
  just_now : Relative
  minutes_ago hours_ago : ℕ → Relative
  on_date : Relative

-- `diff < 0`, with `abs = -diff`
future : ℕ → Relative
future abs =
    if ltb abs 60000
    then any_moment
    else if ltb abs 3600000
    then in_minutes (abs / 60000)
    else let h = abs / 3600000 in
      let m = abs % 3600000 / 60000 in if ltb 0 m then in_hours_minutes h m else in_hours h

past : ℕ → Relative
past diff =
    if ltb diff 60000
    then just_now
    else if ltb diff 3600000
    then minutes_ago (diff / 60000)
    else if ltb diff 86400000
    then hours_ago (diff / 3600000)
    else on_date

-- All comparisons with `NaN` are false.
unfoldable pub relative : Option ℤ → Relative
unfolding future past
relative none = on_date
relative (some (negsuc n)) = future (suc n)
relative (some (pos n)) = past n

abbrev pub since : ℤ → Option ℤ → Option ℤ
since now none = none
since now (some d) = some (now -ℤ d)

unfoldable pub format_relative : Dates → ℤ → Option String → Relative
unfolding relative
format_relative date now none = never
format_relative date now (some iso) =
    if str_eq iso "" then never else relative (since now (date iso))

abbrev pub ends_after : Option ℤ → ℤ → Bool
ends_after none now = false
ends_after (some end) now = ltb_ℤ now end

abbrev pub ended_by : Option ℤ → ℤ → Bool
ended_by none now = false
ended_by (some end) now = leb_ℤ end now

-- The two filters. Each test reads the clock anew: `clock n` is its n-th reading.
module _ (date : Dates) (clock : ℕ → ℤ) where
  unfoldable pub filter_upcoming : ℕ → List Shift → List Shift
  filter_upcoming n [] = []
  filter_upcoming n (s ∷ ss) =
      let rest = filter_upcoming (suc n) ss in
      if ends_after (date s.end_time) (clock n) then s ∷ rest else rest

  unfoldable pub filter_past : ℕ → List Shift → List Shift
  filter_past n [] = []
  filter_past n (s ∷ ss) =
      let rest = filter_past (suc n) ss in
      if ended_by (date s.end_time) (clock n) then s ∷ rest else rest

-- `past.slice(-3).reverse()`
unfoldable pub recent : List Shift → List Shift
recent shifts = reverse (drop (length shifts - 3) shifts)

pub record Dashboard : Type 0 where
  pub schedule : Option ScheduleResponse
  pub ics_url : Option String
  pub loading : Bool

abbrev pub mounted : Dashboard
mounted = record { schedule = none; ics_url = none; loading = true }

-- `Promise.all`, `then`, `catch` and `finally` of the effect on mount.
show_both : Result ScheduleResponse → Result String → Dashboard → Dashboard
show_both (ok sched) (ok url) s = record s {
  schedule = some sched;
  ics_url = some url;
  loading = false;
}
show_both _ _ s = record s { loading = false }

unfoldable pub load : Network → Browser → Dashboard → Dashboard × Browser
unfolding show_both
load net b s =
    let (sched, b') = api net schedule b in
    let (url, b'') = api net ics_url b' in (show_both sched url s, b'')

shifts_of : Option ScheduleResponse → List Shift
shifts_of none = []
shifts_of (some sched) = sched.shifts

last_of : Option ScheduleResponse → Option String
last_of none = none
last_of (some sched) = sched.last_scraped_at

next_of : Option ScheduleResponse → Option String
next_of none = none
next_of (some sched) = sched.next_scrape_at

-- What the page shows; `pending_first_sync` stands for no time of a next sync.
pub data NextSync : Type 0 where
  pending_first_sync : NextSync
  at_time : Relative → NextSync

pub record Shown : Type 0 where
  pub last_synced : Relative
  pub next_sync : NextSync
  pub subscribe : Option String
  pub upcoming : List Shift
  pub recent_past : List Shift

next_sync_of : Dates → ℤ → Option String → NextSync
unfolding format_relative
next_sync_of date now none = pending_first_sync
next_sync_of date now (some iso) =
    if str_eq iso "" then pending_first_sync else at_time (format_relative date now (some iso))

-- `none` while loading. The first two times are read once the filters are through.
unfoldable pub render : Dates → (ℕ → ℤ) → Dashboard → Option Shown
unfolding shifts_of last_of next_of next_sync_of format_relative filter_upcoming filter_past recent
render date clock s =
    let shifts = shifts_of s.schedule in
    let n = length shifts in
    if s.loading
    then none
    else some record {
      last_synced = format_relative date (clock (n + n)) (last_of s.schedule);
      next_sync = next_sync_of date (clock (n + n + 1)) (next_of s.schedule);
      subscribe = s.ics_url;
      upcoming = filter_upcoming date clock 0 shifts;
      recent_past = recent (filter_past date clock n shifts);
    }
