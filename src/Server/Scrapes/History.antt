-- ===== src/Server/Scrapes/History.antt =====
-- The rows of `scrape_logs` in a history of whole handlers and ticks, one after the other.
pub mod Keys
pub mod Rows
pub mod Reports
pub mod Once
use starbies_schedule_sync.Base.{
  ℕ, zero, suc, ◌+◌, String, ◌≡◌, refl, Bool, true, false, ◌||◌, Option, none, some, List, [], ◌∷◌,
  ◌++◌, is_some, if◌then◌else◌, if_either, str_eq, All, Bool-cases, inl, inr, put, arith,
}
use starbies_schedule_sync.Base.Int.{ℤ}
use starbies_schedule_sync.Scraper.Schedule.{Shift}
use starbies_schedule_sync.Scraper.Script.{Credentials}
use starbies_schedule_sync.Server.Scrapes.{
  ScrapeLog, Server, Answer, is_running, runs_with, has_key, has_id, mark_fetched, look_up,
  scrape_get_credentials,
}
use starbies_schedule_sync.Server.Tables.{select, update, delete}
use starbies_schedule_sync.Server.Scrapes.Callbacks.{
  FailureBody, schedule_next, handle_scrape_failure, scrape_submit_failure, scrape_submit_shifts,
}
use starbies_schedule_sync.Server.Scrapes.Service.{
  Attempt, new_log, conflicts, after_start, insert_log, scrape_for_user, start_scrape, reap_all,
  select_all, reap_timed_out_containers, run_retention,
}

pub data Event : Type 0 where
  started :
      (attempts : ℕ → Attempt) → (user_id : String) → (retry_count : ℕ) → (is_auto : Bool) → Event
  asked_credentials : (now : ℕ) → (key : String) → Event
  sent_shifts : (now next : ℕ) → (key : String) → (body : Option (List Shift)) → Event
  sent_failure : (now next : ℕ) → (key : String) → (body : Option FailureBody) → Event
  reaped : (now : ℕ) → (next : String → ℕ) → Event
  retained : (now : ℕ) → Event

module _ (load : String → Option Credentials) (timezone : String → Option String)
    (is_location : String → Bool)
    (parse_in_location : (format text location : String) → Option ℤ) where
  unfoldable pub step : Event → Server → Server
  unfolding scrape_for_user scrape_get_credentials scrape_submit_shifts scrape_submit_failure
      reap_timed_out_containers run_retention
  step (started attempts user_id retry_count is_auto) s =
      start_scrape attempts user_id retry_count is_auto s
  step (asked_credentials now key) s = (scrape_get_credentials load now key s).1
  step (sent_shifts now next key body) s =
      (scrape_submit_shifts timezone is_location parse_in_location now next key body s).1
  step (sent_failure now next key body) s = (scrape_submit_failure now next key body s).1
  step (reaped now next) s = reap_timed_out_containers now next s
  step (retained now) s = run_retention now s

  unfoldable pub run : List Event → Server → Server
  unfolding step
  run [] s = s
  run (e ∷ es) s = run es (step e s)
