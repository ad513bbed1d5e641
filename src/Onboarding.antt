-- ===== src/Onboarding.antt =====
-- web/src/pages/Onboarding.tsx: the state of the page, its handlers and the polling of a scrape.
-- Times are milliseconds; `Date.now() - start` is only compared with positive thresholds, so the
-- subtraction that stops at 0 gives the same tests.
pub mod Machine
pub mod Invariant
pub mod Polling
pub mod Card
pub mod Submitting
pub mod Leaving
mod Tests
use starbies_schedule_sync.Base.{
  ℕ, suc, ◌-◌, String, Bool, true, false, not, Option, none, some, List, [], ◌∷◌, ltb, ◌==◌,
  if◌then◌else◌,
}
use starbies_schedule_sync.Browser.{Thrown}
use starbies_schedule_sync.Api.Types.{
  RunStatus, running, success, failure, ScrapeStatus, CredentialsFormData,
}
use starbies_schedule_sync.Api.Request.{error_message}
use starbies_schedule_sync.Api.Endpoints.{Endpoint, save_credentials, update_credentials}

pub data OnboardingStep : Type 0 where
  loading form scraping succeeded failed : OnboardingStep

abbrev pub slow_threshold : ℕ
slow_threshold = 150_000

abbrev pub timeout_threshold : ℕ
timeout_threshold = 240_000

pub record Onboarding : Type 0 where
  pub step : OnboardingStep
  pub error : String
  pub is_retry : Bool
  pub scrape_result : Option ScrapeStatus
  pub is_slow : Bool
  -- `pollRef`, `scrapeStartRef` and `awaitingNewScrapeRef`
  pub poll_ref : Option ℕ
  pub scrape_start : ℕ
  pub awaiting_new_scrape : Bool
  -- the intervals that the browser keeps for the page, and the next one's number
  pub intervals : List ℕ
  pub next_interval : ℕ
  -- whether `onScrapeSuccess` was called
  pub reported : Bool

abbrev pub mounted : Onboarding
mounted = record {
  step = loading;
  error = "";
  is_retry = false;
  scrape_result = none;
  is_slow = false;
  poll_ref = none;
  scrape_start = 0;
  awaiting_new_scrape = false;
  intervals = [];
  next_interval = 0;
  reported = false;
}

-- `clearInterval(id)`
unfoldable pub clear_interval : ℕ → List ℕ → List ℕ
clear_interval id [] = []
clear_interval id (i ∷ is) = if i == id then clear_interval id is else i ∷ clear_interval id is

stop : Option ℕ → Onboarding → Onboarding
unfolding clear_interval
stop none s = s
stop (some id) s = record s { intervals = clear_interval id s.intervals; poll_ref = none }

unfoldable pub stop_polling : Onboarding → Onboarding
unfolding stop
stop_polling s = stop s.poll_ref s

set_interval : Onboarding → Onboarding
set_interval s = record s {
  poll_ref = some s.next_interval;
  intervals = s.next_interval ∷ s.intervals;
  next_interval = suc s.next_interval;
}

unfoldable pub start_polling : Onboarding → Onboarding
unfolding stop_polling set_interval
start_polling s = set_interval (stop_polling s)

abbrev is_running : Option RunStatus → Bool
is_running (some running) = true
is_running _ = false

-- The effect on mount, when its request gives a status; `catch` is `show_form`.
unfoldable pub on_mount_status : ℕ → ScrapeStatus → Onboarding → Onboarding
unfolding start_polling
on_mount_status now status s =
    if is_running status.status
    then start_polling
        (record s { scrape_start = now; awaiting_new_scrape = false; step = scraping })
    else (record s { step = form })

unfoldable pub show_form : Onboarding → Onboarding
show_form s = record s { step = form }

abbrev pub timed_out : ScrapeStatus
timed_out = record {
  status = some failure;
  started_at = none;
  finished_at = none;
  error_message = some "The connection attempt timed out. Please try again.";
  shifts_found = none;
  failure_screenshots = none;
  log_output = none;
}

-- The end of a poll: the chain of tests on the status.
conclude : Option RunStatus → Bool → ScrapeStatus → Onboarding → Onboarding
unfolding stop_polling
conclude (some success) late status s = record (stop_polling s) {
  scrape_result = some status;
  reported = true;
  step = succeeded;
}
conclude (some failure) late status s = record (stop_polling s) {
  scrape_result = some status;
  step = failed;
}
conclude _ true status s = record (stop_polling s) { scrape_result = some timed_out; step = failed }
conclude _ false status s = s

-- The poll under way, with `awaitingNewScrapeRef` as its first argument.
judge : Bool → Bool → ScrapeStatus → Onboarding → Onboarding
unfolding conclude
judge false late status s = conclude status.status late status s
judge true late status s =
    if is_running status.status
    then conclude status.status late status (record s { awaiting_new_scrape = false })
    else if late
    then conclude status.status late status (record s { awaiting_new_scrape = false })
    else s

mark_slow : Bool → Onboarding → Onboarding
mark_slow true s = record s { is_slow = true }
mark_slow false s = s

-- The callback of the interval, from the status that its request gives; an error changes nothing.
unfoldable pub on_poll : ℕ → ScrapeStatus → Onboarding → Onboarding
unfolding judge mark_slow
on_poll now status s =
    let elapsed = now - s.scrape_start in
    judge s.awaiting_new_scrape (ltb timeout_threshold elapsed) status
      (mark_slow (ltb slow_threshold elapsed) s)

-- `handleSubmit`: what it does before its request, the request, and what it does after.
unfoldable pub on_submit : Onboarding → Onboarding
on_submit s = record s { error = "" }

unfoldable pub submission : Bool → CredentialsFormData → Endpoint
submission is_retry form_data =
    if is_retry then update_credentials form_data else save_credentials form_data

unfoldable pub on_submitted : ℕ → Onboarding → Onboarding
unfolding start_polling
on_submitted now s =
    start_polling (record s {
      scrape_start = now;
      awaiting_new_scrape = true;
      is_slow = false;
      step = scraping;
    })

unfoldable pub on_submit_error : Thrown → Onboarding → Onboarding
on_submit_error e s = record s { error = error_message e }

unfoldable pub handle_retry : Onboarding → Onboarding
handle_retry s = record s { is_retry = true; scrape_result = none; is_slow = false; step = form }
