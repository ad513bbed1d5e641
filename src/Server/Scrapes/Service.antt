-- ===== src/Server/Scrapes/Service.antt =====
-- `scrapeForUser`, `reapTimedOutContainers` and `runRetention` of internal/scraper/service.go.
-- Docker and the pull of the image are a parameter: each attempt to start a container gives an error
-- or none.
pub mod Starting
use starbies_schedule_sync.Base.{
  ℕ, zero, suc, ◌+◌, ◌-◌, ◌*◌, ltb, String, Bool, false, ◌&&◌, ◌||◌, Option, none, some, List, [],
  ◌∷◌, ◌++◌, is_some, if◌then◌else◌, str_eq,
}
use starbies_schedule_sync.Base.Int.{ltb_ℤ, sub_ℕ}
use starbies_schedule_sync.Server.Scrapes.{
  running, failure, ScrapeLog, ShiftRow, Server, is_running, is_failure, is_success, has_id,
}
use starbies_schedule_sync.Server.Tables.{select, update, delete}
use starbies_schedule_sync.Server.Scrapes.Callbacks.{
  max_retries, schedule_next, handle_scrape_failure,
}

-- What `uuid`, the clock, the jitter and Docker give to an attempt. The clock is read when it starts,
-- when its start has failed and when the next scrape is planned.
pub record Attempt : Type 0 where
  pub log_id : String
  pub scrape_key : String
  pub now : ℕ
  pub failed_at : ℕ
  pub planned_at : ℕ
  pub next : ℕ
  pub error : Option String

abbrev pub new_log : String → ℕ → Bool → Attempt → ScrapeLog
new_log user_id retry_count is_auto a = record {
  id = a.log_id;
  user_id = user_id;
  started_at = a.now;
  finished_at = none;
  status = running;
  shifts_found = none;
  shifts_new = none;
  error_message = none;
  scrape_key = a.scrape_key;
  credentials_fetched_at = none;
  log_output = none;
  failure_screenshots = none;
  retry_count = retry_count;
  is_auto = is_auto;
}

-- The primary key and the unique index of `scrape_logs`
abbrev pub conflicts : Attempt → ScrapeLog → Bool
conflicts a l = str_eq l.id a.log_id || str_eq l.scrape_key a.scrape_key

abbrev pub could_not_start : ℕ → String → ScrapeLog → ScrapeLog
could_not_start now message l = record l {
  status = failure;
  finished_at = some now;
  error_message = some message;
}

-- After the start: the row stays, or gets the error, and then `again` retries where it may.
abbrev pub after_start :
    String → Bool → Attempt → Option String → (Server → Server) → Server → Server
after_start user_id may_retry a none again s = s
after_start user_id may_retry a (some message) again s =
    let s' = record s {
      scrape_logs = update (has_id a.log_id) (could_not_start a.failed_at message) s.scrape_logs;
    } in
    if may_retry then again s' else schedule_next a.planned_at a.next user_id s'

abbrev pub insert_log : ScrapeLog → Server → Server
insert_log l s = record s { scrape_logs = s.scrape_logs ++ l ∷ [] }

-- `scrapeForUser`, with the retries that are left, which `isAuto` and `maxRetries` bound; `attempts`
-- are told apart by the retry count.
unfoldable pub scrape_for_user : ℕ → (ℕ → Attempt) → String → ℕ → Bool → Server → Server
unfolding select update schedule_next
scrape_for_user zero attempts user_id retry_count is_auto s =
    let a = attempts retry_count in
    if is_some (select (conflicts a) s.scrape_logs)
    then s
    else after_start user_id false a a.error (λ t. t)
        (insert_log (new_log user_id retry_count is_auto a) s)
scrape_for_user (suc left) attempts user_id retry_count is_auto s =
    let a = attempts retry_count in
    let again = scrape_for_user left attempts user_id (retry_count + 1) is_auto in
    if is_some (select (conflicts a) s.scrape_logs)
    then s
    else after_start user_id is_auto a a.error again
        (insert_log (new_log user_id retry_count is_auto a) s)

-- `scrapeForUser(ctx, userID, retryCount, isAuto)`
abbrev pub start_scrape : (ℕ → Attempt) → String → ℕ → Bool → Server → Server
start_scrape attempts user_id retry_count is_auto =
    scrape_for_user (max_retries - retry_count) attempts user_id retry_count is_auto

abbrev scrape_timeout : ℕ
scrape_timeout = 2 * 60

-- `status = 'running' AND started_at < cutoff`
abbrev pub is_timed_out : ℕ → ScrapeLog → Bool
is_timed_out now l = is_running l.status && ltb (l.started_at + scrape_timeout) now

abbrev pub time_out : ℕ → ScrapeLog → ScrapeLog
time_out now l = record l {
  status = failure;
  finished_at = some now;
  error_message = some "timed out after 2m0s";
}

-- The loop over the rows that were selected; `next` gives the jitter of each.
unfoldable pub reap_all : ℕ → (String → ℕ) → List ScrapeLog → Server → Server
unfolding handle_scrape_failure update
reap_all now next [] s = s
reap_all now next (l ∷ ls) s = reap_all now next ls (
    handle_scrape_failure now (next l.id) l.id l.user_id
      (record s { scrape_logs = update (has_id l.id) (time_out now) s.scrape_logs }))

-- The rows that a test holds of.
unfoldable pub select_all : (ScrapeLog → Bool) → List ScrapeLog → List ScrapeLog
select_all test [] = []
select_all test (l ∷ ls) = let rest = select_all test ls in if test l then l ∷ rest else rest

unfoldable pub reap_timed_out_containers : ℕ → (String → ℕ) → Server → Server
unfolding reap_all select_all
reap_timed_out_containers now next s =
    reap_all now next (select_all (is_timed_out now) s.scrape_logs) s

abbrev day : ℕ
day = 24 * 60 * 60

-- `finished_at < now - age`, which is not true of a missing time
abbrev finished_before : ℕ → ℕ → Option ℕ → Bool
finished_before now age none = false
finished_before now age (some t) = ltb (t + age) now

abbrev pub clear_screenshots : ScrapeLog → ScrapeLog
clear_screenshots l = record l { failure_screenshots = none }

abbrev pub is_old_success : ℕ → ScrapeLog → Bool
is_old_success now l = is_success l.status && finished_before now (7 * day) l.finished_at

abbrev pub is_old_failure : ℕ → ScrapeLog → Bool
is_old_failure now l = is_failure l.status && finished_before now (30 * day) l.finished_at

abbrev pub has_old_screenshots : ℕ → ScrapeLog → Bool
has_old_screenshots now l =
    is_failure l.status
    && (is_some l.failure_screenshots && finished_before now (7 * day) l.finished_at)

-- `runRetention` without the statement on the sessions
unfoldable pub run_retention : ℕ → Server → Server
unfolding delete update
run_retention now s = record s {
  scrape_logs =
      update (has_old_screenshots now) clear_screenshots
        (delete (is_old_failure now) (delete (is_old_success now) s.scrape_logs));
  shifts = delete (λ (r : ShiftRow). ltb_ℤ r.end_time (sub_ℕ now (30 * day))) s.shifts;
}
