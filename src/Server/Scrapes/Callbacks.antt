-- ===== src/Server/Scrapes/Callbacks.antt =====
-- `scrapeSubmitShifts` and `scrapeSubmitFailure` of cmd/app/handlers_scrape_callback.go, with
-- `HandleScrapeFailure` and `ScheduleNext` of internal/scraper/service.go, which they call.
-- The body of the first is what the scraper posts. The zone of a user, the zones that are known and
-- `time.ParseInLocation` are parameters.
pub mod Storing
use starbies_schedule_sync.Base.{
  ℕ, zero, suc, ◌+◌, ltb, String, Bool, true, false, ◌&&◌, Option, none, some, List, [], ◌∷◌, ◌++◌,
  length, or_else, is_some, if◌then◌else◌, str_eq, put,
}
use starbies_schedule_sync.Base.Int.{ℤ}
use starbies_schedule_sync.Scraper.Schedule.{Shift}
use starbies_schedule_sync.Server.Scrapes.{
  Status, running, success, failure, ScrapeLog, ShiftRow, Planned, Retry, Server, Answer, ok,
  bad_request, not_found, runs_with, has_id,
}
use starbies_schedule_sync.Server.Tables.{select, update}

abbrev pub max_retries : ℕ
max_retries = 3

abbrev planned : ℕ → ℕ → Option Planned → Option Planned
planned now next none = none
planned now next (some p) = some (record { next_scrape_at = next; last_scraped_at = some now })

-- `next` is the time `now.Add(jitter)`.
unfoldable pub schedule_next : ℕ → ℕ → String → Server → Server
schedule_next now next user_id s = record s {
  scrape_schedule = put user_id (planned now next (s.scrape_schedule user_id)) s.scrape_schedule;
}

abbrev pub retry_or_schedule : ℕ → ℕ → String → Option ScrapeLog → Server → Server
retry_or_schedule now next user_id none s = schedule_next now next user_id s
retry_or_schedule now next user_id (some l) s =
    if l.is_auto && ltb l.retry_count max_retries
    then (record s {
      retries = s.retries ++ record { user_id = user_id; retry_count = l.retry_count + 1 } ∷ [];
    })
    else schedule_next now next user_id s

unfoldable pub handle_scrape_failure : ℕ → ℕ → String → String → Server → Server
unfolding schedule_next select
handle_scrape_failure now next log_id user_id s =
    retry_or_schedule now next user_id (select (has_id log_id) s.scrape_logs) s

abbrev pub fail_log :
    ℕ → String → Option (List String) → Option (List String) → ScrapeLog → ScrapeLog
fail_log now message log_output failure_screenshots l = record l {
  status = failure;
  finished_at = some now;
  error_message = some message;
  log_output = log_output;
  failure_screenshots = failure_screenshots;
}

pub record FailureBody : Type 0 where
  pub logs : List String
  pub screenshots : List String

abbrev record_failure : ℕ → ℕ → FailureBody → ScrapeLog → Server → Server
record_failure now next body l s = handle_scrape_failure now next l.id l.user_id (record s {
  scrape_logs =
      update (has_id l.id)
        (fail_log now "scraper reported failure" (some body.logs) (some body.screenshots))
        s.scrape_logs;
})

abbrev pub on_failure :
    ℕ → ℕ → Option FailureBody → Option ScrapeLog → Server → Answer Unit × Server
on_failure now next body none s = (not_found, s)
on_failure now next none (some l) s = (bad_request, s)
on_failure now next (some body) (some l) s = (ok tt, record_failure now next body l s)

-- `body` is none where `ShouldBindJSON` fails.
unfoldable pub scrape_submit_failure :
    ℕ → ℕ → String → Option FailureBody → Server → Answer Unit × Server
unfolding handle_scrape_failure update select
scrape_submit_failure now next key body s =
    if str_eq key ""
    then (bad_request, s)
    else on_failure now next body (select (runs_with key) s.scrape_logs) s

-- The four formats of `parseShiftTime`
abbrev formats : List String
formats =
    "2006-01-02T15:04:05" ∷ "2006-01-02 15:04:05" ∷ "2006-01-02T15:04:05Z07:00"
    ∷ "2006-01-02T15:04:05.000" ∷ []

-- `already`, and the conflict on (user_id, shift_id_ext)
abbrev pub is_shift : String → String → ShiftRow → Bool
is_shift user_id ext r = str_eq r.user_id user_id && str_eq r.shift_id_ext ext

-- `INSERT … ON CONFLICT (user_id, shift_id_ext) DO NOTHING`, with what is added to `newCount`.
unfoldable pub insert_shift : ShiftRow → List ShiftRow → ℕ × List ShiftRow
unfolding select
insert_shift r rows =
    if is_some (select (is_shift r.user_id r.shift_id_ext) rows)
    then (0, rows)
    else (1, rows ++ r ∷ [])

-- `{ accepted, new }`
pub record Counts : Type 0 where
  pub accepted : ℕ
  pub new : ℕ

module _ (timezone : String → Option String) (is_location : String → Bool)
    (parse_in_location : (format text location : String) → Option ℤ) where
  abbrev pub location_of : String → String
  location_of user_id =
      let tz_name = or_else (timezone user_id) "UTC" in
      if is_location tz_name then tz_name else "UTC"

  abbrev or_parse : Option ℤ → Option ℤ → Option ℤ
  or_parse (some t) rest = some t
  or_parse none rest = rest

  unfoldable pub parse_with : List String → String → String → Option ℤ
  parse_with [] text location = none
  parse_with (format ∷ more) text location =
      or_parse (parse_in_location format text location) (parse_with more text location)

  unfoldable pub parse_shift_time : String → String → Option ℤ
  unfolding parse_with
  parse_shift_time text location = parse_with formats text location

  abbrev pub row_between : ℕ → String → Shift → Option ℤ → Option ℤ → Option ShiftRow
  row_between now user_id sh (some start) (some end) = some (record {
    user_id = user_id;
    shift_id_ext = sh.shift_id_ext;
    job_name = sh.job_name;
    location = sh.location;
    start_time = start;
    end_time = end;
    net_hours = sh.net_hours;
    created_at = now;
  })
  row_between now user_id sh _ _ = none

  -- The row of a shift, or none where a time does not parse.
  unfoldable pub row_of : ℕ → String → Shift → Option ShiftRow
  unfolding parse_shift_time
  row_of now user_id sh =
      let location = location_of user_id in
      row_between now user_id sh (parse_shift_time (or_else sh.start "") location)
        (parse_shift_time (or_else sh.end "") location)

  -- The loop over the shifts: the count of new ones, and the table.
  abbrev pub store_row : Option ShiftRow → ℕ × List ShiftRow → ℕ × List ShiftRow
  store_row none t = t
  store_row (some r) (new, rows) = let (n, rows') = insert_shift r rows in (new + n, rows')

  unfoldable pub store_shifts : ℕ → String → List Shift → ℕ × List ShiftRow → ℕ × List ShiftRow
  unfolding row_of insert_shift
  store_shifts now user_id [] t = t
  store_shifts now user_id (sh ∷ shs) t =
      store_shifts now user_id shs (store_row (row_of now user_id sh) t)

  abbrev pub succeed_log : ℕ → ℕ → ℕ → ScrapeLog → ScrapeLog
  succeed_log now found new l = record l {
    status = success;
    finished_at = some now;
    shifts_found = some found;
    shifts_new = some new;
  }

  abbrev pub record_shifts : ℕ → ℕ → List Shift → ScrapeLog → Server → Counts × Server
  record_shifts now next shs l s =
      let (new, rows) = store_shifts now l.user_id shs (0, s.shifts) in
      (
        record { accepted = length shs; new = new },
        schedule_next now next l.user_id (record s {
          shifts = rows;
          scrape_logs = update (has_id l.id) (succeed_log now (length shs) new) s.scrape_logs;
        }),
      )

  abbrev pub on_shifts :
      ℕ → ℕ → Option (List Shift) → Option ScrapeLog → Server → Answer Counts × Server
  on_shifts now next body none s = (not_found, s)
  on_shifts now next none (some l) s = (bad_request, s)
  on_shifts now next (some shs) (some l) s =
      let (counts, s') = record_shifts now next shs l s in (ok counts, s')

  unfoldable pub scrape_submit_shifts :
      ℕ → ℕ → String → Option (List Shift) → Server → Answer Counts × Server
  unfolding store_shifts schedule_next update select
  scrape_submit_shifts now next key body s =
      if str_eq key ""
      then (bad_request, s)
      else on_shifts now next body (select (runs_with key) s.scrape_logs) s
