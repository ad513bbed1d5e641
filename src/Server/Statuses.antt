-- ===== src/Server/Statuses.antt =====
-- What the server shows of the scrapes: cmd/app/handlers_scrape_status.go, and
-- the handlers of cmd/app/handlers_admin.go. How a time is written, and the JSON of a list of
-- texts, are parameters.
pub mod Shown
pub mod Syncing
mod Tests
use starbies_schedule_sync.Base.{
  ℕ, String, Bool, true, false, ◌&&◌, Option, none, some, List, [], ◌∷◌, ◌++◌, map, take, length,
  is_some, if◌then◌else◌, str_eq, ltb,
}
use starbies_schedule_sync.Api.Types.{RunStatus, ScrapeStatus, OnboardingStatus}
use starbies_schedule_sync.Api.Types
use starbies_schedule_sync.Server.Tables.{select}
use starbies_schedule_sync.Server.Tables.Order.{newest, select_all}
use starbies_schedule_sync.Server.Scrapes.{
  Planned, ScrapeLog, ShiftRow, Status, failure, is_success, running, success,
}
use starbies_schedule_sync.Server.Accounts.{Reply, User, bad_request, has_id, ok}
use starbies_schedule_sync.Server.Vault.{StarbucksCredentials}

abbrev pub option_map {ℓ κ} : {A : Type ℓ} {B : Type κ} → (A → B) → Option A → Option B
option_map f none = none
option_map f (some a) = some (f a)

abbrev pub started : ScrapeLog → ℕ
started l = l.started_at

abbrev pub is_of : String → ScrapeLog → Bool
is_of user_id l = str_eq l.user_id user_id

abbrev pub first {ℓ} : {A : Type ℓ} → List A → Option A
first [] = none
first (x ∷ xs) = some x

abbrev pub run_status : Status → RunStatus
run_status running = RunStatus.running
run_status success = RunStatus.success
run_status failure = RunStatus.failure

-- The user's rows, the newest first
unfoldable pub logs_of : String → List ScrapeLog → List ScrapeLog
unfolding newest select_all
logs_of user_id logs = newest started (select_all (is_of user_id) logs)

-- `onboardingStatus`: whether the counts are positive.
unfoldable pub onboarding_status :
    String → (String → Option StarbucksCredentials) → List ScrapeLog → OnboardingStatus
unfolding select
onboarding_status user_id credentials logs = record {
  has_credentials = is_some (credentials user_id);
  has_successful_scrape =
      is_some (select (λ (l : ScrapeLog). is_of user_id l && is_success l.status) logs);
}

-- A row of `adminUsers`
pub record UserRow : Type 0 where
  pub id : String
  pub email : String
  pub is_admin : Bool
  pub created_at : String
  pub last_scraped_at : Option String
  pub next_scrape_at : Option String
  pub shift_count : ℕ
  pub last_status : Option RunStatus

-- `adminTriggerScrape`: none where the id does not parse; the scrapes that were triggered.
unfoldable pub admin_trigger_scrape : Option String → List String → Reply Unit × List String
admin_trigger_scrape none triggered = (bad_request, triggered)
admin_trigger_scrape (some user_id) triggered = (ok tt, triggered ++ user_id ∷ [])

module _ (format_time : ℕ → String) (marshal : List String → String)
    (unmarshal : String → Option (List String)) where
  -- `parseJSONArray` on what the column holds
  abbrev pub parse_json_array : Option (List String) → Option (List String)
  parse_json_array none = none
  parse_json_array (some texts) =
      if str_eq (marshal texts) "" then none else unmarshal (marshal texts)

  abbrev pub status_document : ScrapeLog → ScrapeStatus
  status_document l = record {
    status = some (run_status l.status);
    started_at = some (format_time l.started_at);
    finished_at = option_map format_time l.finished_at;
    error_message = l.error_message;
    shifts_found = l.shifts_found;
    failure_screenshots = parse_json_array l.failure_screenshots;
    log_output = parse_json_array l.log_output;
  }

  -- The document without keys
  abbrev pub no_status : ScrapeStatus
  no_status = record {
    status = none;
    started_at = none;
    finished_at = none;
    error_message = none;
    shifts_found = none;
    failure_screenshots = none;
    log_output = none;
  }

  abbrev pub document_or_empty : Option ScrapeLog → ScrapeStatus
  document_or_empty none = no_status
  document_or_empty (some l) = status_document l

  -- `LIMIT 1`
  unfoldable pub scrape_status : String → List ScrapeLog → ScrapeStatus
  unfolding logs_of
  scrape_status user_id logs = document_or_empty (first (logs_of user_id logs))

  abbrev pub log_row : Option String → ScrapeLog → Types.ScrapeLog
  log_row email l = record {
    id = l.id;
    user_id = l.user_id;
    email = email;
    started_at = format_time l.started_at;
    finished_at = option_map format_time l.finished_at;
    status = run_status l.status;
    shifts_found = l.shifts_found;
    shifts_new = l.shifts_new;
    error_message = l.error_message;
    log_output = option_map marshal l.log_output;
    failure_screenshots = option_map marshal l.failure_screenshots;
  }

  unfoldable pub user_scrape_logs : String → List ScrapeLog → List Types.ScrapeLog
  unfolding logs_of
  user_scrape_logs user_id logs = map (log_row none) (take 5 (logs_of user_id logs))

  -- `JOIN users u ON u.id = l.user_id`
  unfoldable pub join_users : List User → List ScrapeLog → List Types.ScrapeLog
  unfolding select
  join_users users [] = []
  join_users users (l ∷ ls) =
      let rest = join_users users ls in
      elim (select (has_id l.user_id) users) [
        | none ↦ rest
        | some u ↦ log_row (some u.email) l ∷ rest
      ]

  -- With the keys of the client's type: the container and the key are left out.
  unfoldable pub admin_scrape_logs : List User → List ScrapeLog → List Types.ScrapeLog
  unfolding newest join_users
  admin_scrape_logs users logs = take 200 (join_users users (newest started logs))

  abbrev pub last_scraped_at : Option Planned → Option ℕ
  last_scraped_at none = none
  last_scraped_at (some p) = p.last_scraped_at

  abbrev pub next_scrape_at : Option Planned → Option ℕ
  next_scrape_at none = none
  next_scrape_at (some p) = some p.next_scrape_at

  unfoldable pub user_row :
      (String → Option Planned) → List ShiftRow → List ScrapeLog → User → UserRow
  unfolding logs_of select_all
  user_row scrape_schedule shifts logs u = record {
    id = u.id;
    email = u.email;
    is_admin = u.is_admin;
    created_at = format_time u.created_at;
    last_scraped_at = option_map format_time (last_scraped_at (scrape_schedule u.id));
    next_scrape_at = option_map format_time (next_scrape_at (scrape_schedule u.id));
    shift_count = length (select_all (λ (r : ShiftRow). str_eq r.user_id u.id) shifts);
    last_status = option_map (λ (l : ScrapeLog). run_status l.status) (first (logs_of u.id logs));
  }

  -- `LEFT JOIN scrape_schedule`, and the two subqueries for each user
  unfoldable pub admin_users :
      List User → (String → Option Planned) → List ShiftRow → List ScrapeLog → List UserRow
  unfolding newest user_row
  admin_users users scrape_schedule shifts logs =
      map (user_row scrape_schedule shifts logs) (newest (λ (u : User). u.created_at) users)
