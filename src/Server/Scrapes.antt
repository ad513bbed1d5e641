-- ===== src/Server/Scrapes.antt =====
-- The life of a scrape in the server: cmd/app/handlers_scrape_callback.go, and scrapeForUser,
-- HandleScrapeFailure, ScheduleNext, reapTimedOutContainers and runRetention of
-- internal/scraper/service.go. The tables of SQLite are lists and maps, a statement of SQL is a
-- function on them that does what it says; the statements are taken to succeed but for conflicts.
-- Times are seconds since 1970. The ids and keys that `uuid` makes are arguments, and so are what
-- becomes of a container's start and the time that the random jitter gives.
pub mod Callbacks
pub mod Service
pub mod History
mod Tests
use starbies_schedule_sync.Server.Tables.{select, update, delete}
use starbies_schedule_sync.Base.{
  ℕ, zero, suc, ◌+◌, ◌-◌, ◌*◌, ltb, leb, String, Bool, true, false, ◌&&◌, ◌||◌, not, Option, none,
  some, List, [], ◌∷◌, ◌++◌, map, length, or_else, is_some, if◌then◌else◌, str_eq, put,
}
use starbies_schedule_sync.Base.Int.{ℤ, pos, ltb_ℤ}
use starbies_schedule_sync.Scraper.Schedule.{Decimal, Shift}
use starbies_schedule_sync.Scraper.Script.{Credentials}

pub data Status : Type 0 where
  running success failure : Status

-- A row of `scrape_logs`, without the container, whose id only Docker is given. The two lists are
-- those whose JSON the table holds.
pub record ScrapeLog : Type 0 where
  pub id : String
  pub user_id : String
  pub started_at : ℕ
  pub finished_at : Option ℕ
  pub status : Status
  pub shifts_found : Option ℕ
  pub shifts_new : Option ℕ
  pub error_message : Option String
  pub scrape_key : String
  pub credentials_fetched_at : Option ℕ
  pub log_output : Option (List String)
  pub failure_screenshots : Option (List String)
  pub retry_count : ℕ
  pub is_auto : Bool

-- A row of `shifts`, without its random id.
pub record ShiftRow : Type 0 where
  pub user_id : String
  pub shift_id_ext : String
  pub job_name : String
  pub location : String
  pub start_time : ℤ
  pub end_time : ℤ
  pub net_hours : Decimal
  pub created_at : ℕ

pub record Planned : Type 0 where
  pub next_scrape_at : ℕ
  pub last_scraped_at : Option ℕ

-- A goroutine that waits for the semaphore and then calls `scrapeForUser`.
pub record Retry : Type 0 where
  pub user_id : String
  pub retry_count : ℕ

-- The tables, and the goroutines for retries, in the order in which they were started.
pub record Server : Type 0 where
  pub scrape_logs : List ScrapeLog
  pub shifts : List ShiftRow
  pub scrape_schedule : String → Option Planned
  pub retries : List Retry

-- The answers of the handlers, with the status 200 where they have a document.
pub data Answer (A : Type 0) : Type 0 where
  ok : A → Answer A
  bad_request not_found gone internal_server_error : Answer A

abbrev pub is_running : Status → Bool
is_running running = true
is_running _ = false

abbrev pub is_failure : Status → Bool
is_failure failure = true
is_failure _ = false

abbrev pub is_success : Status → Bool
is_success success = true
is_success _ = false

-- `WHERE scrape_key = ? AND status = 'running'`
abbrev pub runs_with : String → ScrapeLog → Bool
runs_with key l = str_eq l.scrape_key key && is_running l.status

abbrev pub has_key : String → ScrapeLog → Bool
has_key key l = str_eq l.scrape_key key

abbrev pub has_id : String → ScrapeLog → Bool
has_id id l = str_eq l.id id

-- `LoadCredentials` is the parameter `load`, which is `none` for any of its errors.
module _ (load : String → Option Credentials) where
  abbrev pub loaded : Option Credentials → Answer Credentials
  loaded none = internal_server_error
  loaded (some creds) = ok creds

  abbrev pub unless_fetched : Option ScrapeLog → Answer Credentials
  unless_fetched none = not_found
  unless_fetched (some l) =
      if is_some l.credentials_fetched_at then gone else loaded (load l.user_id)

  -- `scrapeGetCredentials` up to its last statement
  unfoldable pub look_up : String → Server → Answer Credentials
  unfolding select
  look_up key s =
      if str_eq key "" then bad_request else unless_fetched (select (runs_with key) s.scrape_logs)

  -- That statement
  unfoldable pub mark_fetched : ℕ → String → Server → Server
  unfolding update
  mark_fetched now key s = record s {
    scrape_logs =
        update (has_key key) (λ l. record l { credentials_fetched_at = some now }) s.scrape_logs;
  }

  abbrev pub after_look_up : ℕ → String → Answer Credentials → Server → Answer Credentials × Server
  after_look_up now key (ok creds) s = (ok creds, mark_fetched now key s)
  after_look_up now key bad_request s = (bad_request, s)
  after_look_up now key not_found s = (not_found, s)
  after_look_up now key gone s = (gone, s)
  after_look_up now key internal_server_error s = (internal_server_error, s)

  unfoldable pub scrape_get_credentials : ℕ → String → Server → Answer Credentials × Server
  unfolding look_up mark_fetched
  scrape_get_credentials now key s = after_look_up now key (look_up key s) s
