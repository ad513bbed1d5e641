-- ===== src/Server/Scrapes/Tests.antt =====
-- A scrape that is started, asks for its credentials and reports, on a concrete server.
use starbies_schedule_sync.Base.{
  ℕ, zero, suc, ◌+◌, ◌<◌, ◌≤◌, arith, ◌≡◌, ◌≢◌, refl, String, Bool, true, false, Option, none, some,
  List, [], ◌∷◌, ◌++◌, map, if◌then◌else◌, str_eq,
}
use starbies_schedule_sync.Base.Int.{ℤ, pos}
use starbies_schedule_sync.Scraper.Schedule.{Shift}
use starbies_schedule_sync.Scraper.Script.{Credentials}
use starbies_schedule_sync.Server.Scrapes.{
  Status, success, failure, ScrapeLog, Planned, Server, ok, gone, scrape_get_credentials,
}
use starbies_schedule_sync.Server.Tables.{select}
use starbies_schedule_sync.Server.Scrapes.Callbacks.{scrape_submit_shifts}
use starbies_schedule_sync.Server.Scrapes.Service.{Attempt, start_scrape, new_log, conflicts}
use starbies_schedule_sync.Server.Scrapes.Service.Starting.{Settles, start_scrape-Settles}
use starbies_schedule_sync.Server.Scrapes.History.{
  Event, started, asked_credentials, sent_shifts, sent_failure, reaped, retained, step, run,
}
use starbies_schedule_sync.Server.Scrapes.History.Once.{
  opened, Refuses, step-Refuses, scrape_get_credentials_once,
}

abbrev ada : Credentials
ada = record { username = some "ada"; password = some "pw"; security_questions = some [] }

abbrev load : String → Option Credentials
load user_id = some ada

abbrev timezone : String → Option String
timezone user_id = some "UTC"

abbrev is_location : String → Bool
is_location name = true

-- The times "1" and "2" parse in the second format.
abbrev parse_in_location : (format text location : String) → Option ℤ
parse_in_location format text location =
    if str_eq format "2006-01-02 15:04:05"
    then if str_eq text "1" then some (pos 1) else if str_eq text "2" then some (pos 2) else none
    else none

abbrev attempts : String → ℕ → Attempt
attempts key n = record {
  log_id = key;
  scrape_key = key;
  now = 100;
  failed_at = 110;
  planned_at = 110;
  next = 60000;
  error = none;
}

abbrev schedule : String → Option Planned
schedule user_id = some (record { next_scrape_at = 0; last_scraped_at = none })

abbrev shift : String → String → Shift
shift id end = record {
  start = some "1";
  end = some end;
  job_name = "Barista";
  net_hours = record { digits = pos 8; scale = 0 };
  shift_id_ext = id;
  location = "";
}

-- The second has no readable end, the third the id of the first.
abbrev sent : List Shift
sent = shift "s1" "2" ∷ shift "s2" "soon" ∷ shift "s1" "2" ∷ []

abbrev after : List Event → Server
after es =
    run load timezone is_location parse_in_location es
      (opened load timezone is_location parse_in_location [] schedule)

abbrev begun : List Event
begun = started (attempts "k1") "u1" 0 true ∷ []

statuses : List Status
statuses =
    map (λ (l : ScrapeLog). l.status)
      (after (
        begun
        ++ sent_shifts 150 60000 "k1" (some sent)
          ∷ sent_failure 160 60000 "k1" none
          ∷ reaped 900 (λ _. 61000)
          ∷ [])).scrape_logs

stays_success : statuses ≡ success ∷ []
unfolding statuses run
stays_success = refl

reaped_statuses : List Status
reaped_statuses =
    map (λ (l : ScrapeLog). l.status) (after (begun ++ reaped 900 (λ _. 61000) ∷ [])).scrape_logs

is_reaped : reaped_statuses ≡ failure ∷ []
unfolding reaped_statuses run
is_reaped = refl

counts :
    (scrape_submit_shifts timezone is_location parse_in_location 150 60000 "k1"
      (some sent)
      (after begun)).0
    ≡ ok (record { accepted = 3; new = 1 })
unfolding scrape_submit_shifts run
counts = refl

second_request :
    (scrape_get_credentials load 130 "k1" (after (begun ++ asked_credentials 120 "k1" ∷ []))).0
    ≡ gone
unfolding scrape_get_credentials run
second_request = refl

given : (scrape_get_credentials load 120 "k1" (after begun)).0 ≡ ok ada
unfolding scrape_get_credentials run
given = refl

abbrev later : List Event
later =
    started (attempts "k2") "u1" 0 true
    ∷ sent_shifts 150 60000 "k1" (some sent)
    ∷ retained 9000000
    ∷ []

scrape_get_credentials_once_example :
    (scrape_get_credentials load 200 "k1" (
      run load timezone is_location parse_in_location later
        (scrape_get_credentials load 120 "k1" (after begun)).1)).0
    ≢ ok ada
scrape_get_credentials_once_example =
    scrape_get_credentials_once load timezone is_location parse_in_location (after begun) 120 "k1"
      ada later given ((λ i. refl), (tt, (tt, tt))) 200 ada

step-Refuses_example : Refuses load timezone is_location parse_in_location "k1" (
    run load timezone is_location parse_in_location later (
      step load timezone is_location parse_in_location
        (sent_shifts 150 60000 "k1" (some sent))
        (after begun)))
step-Refuses_example =
    step-Refuses load timezone is_location parse_in_location [] schedule begun later "k1"
      (sent_shifts 150 60000 "k1" (some sent)) (refl, (record { accepted = 3; new = 1 }, counts))
      ((λ i. refl), (tt, (tt, tt)))

abbrev name : ℕ → String
name zero = "a"
name (suc zero) = "b"
name (suc (suc zero)) = "c"
name (suc (suc (suc n))) = "d"

abbrev failing : ℕ → Attempt
failing n = record {
  log_id = name n;
  scrape_key = name n;
  now = 100 + n;
  failed_at = 110 + n;
  planned_at = 120 + n;
  next = 60000 + n;
  error = some "start container";
}

tried : List (ℕ × Status)
tried =
    map (λ (l : ScrapeLog). (l.retry_count, l.status))
      (after (started failing "u1" 0 true ∷ [])).scrape_logs

-- An automatic scrape whose container never starts is tried four times.
tries_four : tried ≡ (0, failure) ∷ (1, failure) ∷ (2, failure) ∷ (3, failure) ∷ []
unfolding tried run
tries_four = refl

then_planned :
    (after (started failing "u1" 0 true ∷ [])).scrape_schedule "u1"
    ≡ some (record { next_scrape_at = 60003; last_scraped_at = some 123 })
unfolding run
then_planned = refl

failing-distinct :
    (i j : ℕ) → i < j → j ≤ 3 → conflicts (failing j) (new_log "u1" i true (failing i)) ≡ false
failing-distinct i zero h k = absurd (omega arith)
failing-distinct zero (suc zero) h k = refl
failing-distinct zero (suc (suc zero)) h k = refl
failing-distinct zero (suc (suc (suc j))) h k = refl
failing-distinct (suc i) (suc zero) h k = absurd (omega arith)
failing-distinct (suc zero) (suc (suc zero)) h k = refl
failing-distinct (suc zero) (suc (suc (suc j))) h k = refl
failing-distinct (suc (suc i)) (suc (suc zero)) h k = absurd (omega arith)
failing-distinct (suc (suc zero)) (suc (suc (suc j))) h k = refl
failing-distinct (suc (suc (suc i))) (suc (suc (suc j))) h k = absurd (omega arith)

start_scrape-Settles_example : Settles failing "u1" true (
    start_scrape failing "u1" 0 true
      (opened load timezone is_location parse_in_location [] schedule))
start_scrape-Settles_example =
    start_scrape-Settles failing "u1" true failing-distinct 0
      (opened load timezone is_location parse_in_location [] schedule)
      (record { next_scrape_at = 0; last_scraped_at = none }) refl (omega arith)
      (λ j from to. unfold select in refl)
