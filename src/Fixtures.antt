-- ===== src/Fixtures.antt =====
-- Concrete replies, users and pages for the tests.
use starbies_schedule_sync.Base.{ℕ, true, false, none, some, [], ◌∷◌}
use starbies_schedule_sync.Browser.{Browser}
use starbies_schedule_sync.Api.Types.{
  User, Shift, ScheduleResponse, RunStatus, running, failure, ScrapeLog, ScrapeStatus,
  CredentialsFormData,
}
use starbies_schedule_sync.Api.Request.{document, absent, Reply, received}
use starbies_schedule_sync.Api.Endpoints.{
  Network, config, request_pin, verify_pin, logout, me, dev_login, save_credentials,
  update_credentials, schedule, ics_url, delete_account, update_timezone, scrape_status,
  scrape_logs, onboarding_status, admin_logs, admin_users, trigger_scrape,
}

abbrev pub json {ℓ} : {A : Type ℓ} → ℕ → A → Reply A
json status a = received record {
  status = status;
  status_text = "text";
  content_type = some "application/json; charset=utf-8";
  body = document a absent;
}

abbrev pub html {ℓ} : {A : Type ℓ} → A → Reply A
html a = received record {
  status = 200;
  status_text = "OK";
  content_type = some "text/html";
  body = document a absent;
}

abbrev pub ann : User
ann = record {
  id = "u1";
  email = "ann@example.com";
  is_admin = false;
  timezone = "UTC";
  created_at = "2026-01-01T00:00:00Z";
}

abbrev pub root : User
root = record ann { is_admin = true }

abbrev pub at_schedule : Browser
at_schedule = record {
  pathname = "/dashboard";
  search = "?week=2";
  return_path = none;
  href = none;
}

abbrev pub status_is : RunStatus → ScrapeStatus
status_is s = record {
  status = some s;
  started_at = none;
  finished_at = none;
  error_message = none;
  shifts_found = some 4;
  failure_screenshots = some ("iVBOR" ∷ []);
  log_output = none;
}

abbrev pub morning : Shift
morning = record {
  id = "s1";
  job_name = "Barista";
  location = "12345";
  start_time = "10";
  end_time = "18";
  net_hours = "7.5";
}

abbrev pub evening : Shift
evening = record morning { id = "s2"; start_time = "30"; end_time = "38" }

abbrev pub week : ScheduleResponse
week = record {
  shifts = morning ∷ evening ∷ [];
  last_scraped_at = some "20";
  next_scrape_at = none;
}

abbrev pub one_log : ScrapeLog
one_log = record {
  id = "l1";
  user_id = "u1";
  email = none;
  started_at = "1";
  finished_at = some "2";
  status = failure;
  shifts_found = none;
  shifts_new = none;
  error_message = some "login failed";
  log_output = some "[\"start\"]";
  failure_screenshots = none;
}

abbrev pub keys : CredentialsFormData
keys = record {
  username = "US1";
  password = "secret";
  security_questions = record { question = "game"; answer = "chess" } ∷ [];
}

-- A server that answers every request, with ann signed in.
abbrev pub server : Network
server config call = json 200 (record { dev_mode = false; commit_sha = "dev"; commit_url = "" })
server (request_pin _) call = json 200 tt
server (verify_pin _ _) call = json 200 ann
server logout call = json 200 tt
server me call = json 200 ann
server dev_login call = json 404 ann
server (save_credentials _) call = json 200 tt
server (update_credentials _) call = json 429 tt
server schedule call = json 200 week
server ics_url call = json 200 "https://example.com/cal/x.ics"
server delete_account call = json 200 tt
server (update_timezone _) call = json 200 ann
server scrape_status call = json 200 (status_is running)
server scrape_logs call = json 200 (one_log ∷ [])
server onboarding_status call =
    json 200 (record { has_credentials = true; has_successful_scrape = true })
server admin_logs call = json 403 []
server admin_users call = json 403 []
server (trigger_scrape _) call = json 403 tt
