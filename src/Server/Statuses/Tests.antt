-- ===== src/Server/Statuses/Tests.antt =====
-- A user whose scrape ends while the onboarding page waits.
use starbies_schedule_sync.Base.{
  ℕ, ◌-◌, ◌≤◌, ◌≡◌, ◌↔◌, refl, String, Bool, false, Option, none, some, List, [], ◌∷◌, Has, map,
  take, str_eq, arith,
}
use starbies_schedule_sync.Base.Int.{ℤ, pos}
use starbies_schedule_sync.Onboarding.{
  Onboarding, mounted, on_poll, on_submitted, scraping, succeeded, timeout_threshold,
}
use starbies_schedule_sync.Scraper.Schedule.{Shift}
use starbies_schedule_sync.Server.Tables.{select}
use starbies_schedule_sync.Server.Tables.Order.{IsDescending}
use starbies_schedule_sync.Server.Scrapes
use starbies_schedule_sync.Server.Scrapes.{ScrapeLog, Status, failure, running, runs_with, success}
use starbies_schedule_sync.Server.Scrapes.Callbacks.{scrape_submit_shifts}
use starbies_schedule_sync.Server.Statuses.{
  document_or_empty, first, log_row, logs_of, scrape_status, started, user_scrape_logs,
}
use starbies_schedule_sync.Server.Statuses.Shown.{scrape_status_lem}
use starbies_schedule_sync.Server.Statuses.Syncing.{on_poll-scrape_submit_shifts}

abbrev format_time : ℕ → String
format_time t = "2026-01-01T00:00:00Z"

abbrev marshal : List String → String
marshal texts = "[]"

abbrev unmarshal : String → Option (List String)
unmarshal text = some []

abbrev log : String → String → ℕ → Status → ScrapeLog
log id user_id started_at status = record {
  id = id;
  user_id = user_id;
  started_at = started_at;
  finished_at = none;
  status = status;
  shifts_found = none;
  shifts_new = none;
  error_message = none;
  scrape_key = id;
  credentials_fetched_at = none;
  log_output = none;
  failure_screenshots = none;
  retry_count = 0;
  is_auto = false;
}

abbrev current : ScrapeLog
current = log "l3" "u1" 90 running

abbrev logs : List ScrapeLog
logs = log "l1" "u1" 10 failure ∷ log "l2" "u2" 95 running ∷ current ∷ []

is_newest : first (logs_of "u1" logs) ≡ some current
unfolding logs_of
is_newest = refl

runs : select (runs_with "l3") logs ≡ some current
unfolding select
runs = refl

abbrev server : Scrapes.Server
server = record { scrape_logs = logs; shifts = []; scrape_schedule = λ id. none; retries = [] }

abbrev timezone : String → Option String
timezone id = some "America/Chicago"

abbrev is_location : String → Bool
is_location name = str_eq name "America/Chicago"

abbrev parse_in_location : (format text location : String) → Option ℤ
parse_in_location format text location = some (pos 100)

abbrev shift : Shift
shift = record {
  start = some "2026-01-02T08:00:00";
  end = some "2026-01-02T16:00:00";
  job_name = "Barista";
  net_hours = record { digits = pos 75; scale = 1 };
  shift_id_ext = "s1";
  location = "5th";
}

abbrev page : Onboarding
page = on_submitted 1000 mounted

waits : page.step ≡ scraping
unfolding on_submitted
waits = refl

early : 3000 - page.scrape_start ≤ timeout_threshold
unfolding on_submitted
early = omega arith

scrape_status_lem_example :
    (mine : List ScrapeLog) × ((l : ScrapeLog) → Has l mine ↔ (Has l logs × (l.user_id ≡ "u1")))
    × IsDescending started mine
    × (scrape_status format_time marshal unmarshal "u1" logs
        ≡ document_or_empty format_time marshal unmarshal (first mine))
    × (user_scrape_logs format_time marshal unmarshal "u1" logs
        ≡ map (log_row format_time marshal unmarshal none) (take 5 mine))
scrape_status_lem_example = scrape_status_lem format_time marshal unmarshal "u1" logs

on_poll-scrape_submit_shifts_example :
    let s' =
      (scrape_submit_shifts timezone is_location parse_in_location 100 4000 "l3"
        (some (shift ∷ []))
        server).1 in
    let seen = scrape_status format_time marshal unmarshal "u1" logs in
    let result = scrape_status format_time marshal unmarshal "u1" s'.scrape_logs in
    let t = on_poll 9000 result (on_poll 3000 seen page) in
    (t.step ≡ succeeded)
    × (t.poll_ref ≡ none)
    × (t.scrape_result ≡ some result)
    × (result.shifts_found ≡ some 1)
on_poll-scrape_submit_shifts_example =
    on_poll-scrape_submit_shifts format_time marshal unmarshal timezone is_location
      parse_in_location 100 4000 3000 9000 "l3" (shift ∷ []) current server page refl runs is_newest
      waits early
