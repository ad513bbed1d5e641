-- ===== src/Server/Statuses/Syncing.antt =====
-- The way of a scrape's result from the scraper's report to the onboarding page.
use mathlib.Core.Option.{some-injective}
use starbies_schedule_sync.Base.{
  ℕ, ◌-◌, ◌≡◌, ◌≤◌, refl, ap, ◌∙◌, inl, String, Bool, true, false, Option, none, some, List, [],
  ◌∷◌, length, str_eq, eq_iff, arith,
}
use starbies_schedule_sync.Base.Int.{ℤ}
use starbies_schedule_sync.Api.Types.{RunStatus, ScrapeStatus}
use starbies_schedule_sync.Onboarding.{Onboarding, on_poll, scraping, succeeded, timeout_threshold}
use starbies_schedule_sync.Onboarding.Polling.{on_poll-running}
use starbies_schedule_sync.Scraper.Schedule.{Shift}
use starbies_schedule_sync.Server.Tables.{select, select-passes, update}
use starbies_schedule_sync.Server.Tables.Order.{newest-select_all-update}
use starbies_schedule_sync.Server.Scrapes.{
  ScrapeLog, Server, has_id, runs_with, is_running, Status, running, success, failure,
}
use starbies_schedule_sync.Server.Scrapes.Callbacks.{
  scrape_submit_shifts, succeed_log, store_shifts, schedule_next,
}
use starbies_schedule_sync.Server.Statuses.{
  document_or_empty, first, is_of, logs_of, run_status, scrape_status, started, status_document,
}

first-update :
    (test : ScrapeLog → Bool) (f : ScrapeLog → ScrapeLog) (ls : List ScrapeLog) (l : ScrapeLog)
    → first ls ≡ some l
    → test l ≡ true
    → first (update test f ls) ≡ some (f l)
unfolding update
first-update test f [] l h k = absurd cc
first-update test f (m ∷ ms) l h k = let same : m ≡ l = some-injective m l h in rw (same, k) refl

is_running-eq : (status : Status) → is_running status ≡ true → run_status status ≡ RunStatus.running
is_running-eq running h = refl
is_running-eq success h = absurd cc
is_running-eq failure h = absurd cc

module _ (format_time : ℕ → String) (marshal : List String → String)
    (unmarshal : String → Option (List String)) where
  scrape_status-first :
      (user_id : String) (logs : List ScrapeLog) (l : ScrapeLog)
      → first (logs_of user_id logs) ≡ some l
      → scrape_status format_time marshal unmarshal user_id logs
        ≡ status_document format_time marshal unmarshal l
  unfolding scrape_status
  scrape_status-first user_id logs l h = ap (document_or_empty format_time marshal unmarshal) h

  module _ (timezone : String → Option String) (is_location : String → Bool)
      (parse_in_location : (format text location : String) → Option ℤ) where
    abbrev new_of : ℕ → List Shift → ScrapeLog → Server → ℕ
    new_of now shs l s =
        (store_shifts timezone is_location parse_in_location now l.user_id shs (0, s.shifts)).0

    submitted_logs :
        (now next : ℕ) (key : String) (shs : List Shift) (l : ScrapeLog) (s : Server)
        → str_eq key "" ≡ false
        → select (runs_with key) s.scrape_logs ≡ some l
        → (scrape_submit_shifts timezone is_location parse_in_location now next key
            (some shs)
            s).1.scrape_logs
          ≡ update
              (has_id l.id)
              (succeed_log timezone is_location parse_in_location now
                (length shs)
                (new_of now shs l s))
              s.scrape_logs
    unfolding scrape_submit_shifts schedule_next
    submitted_logs now next key shs l s nonempty found = rw (nonempty, found) refl

    first-submitted :
        (now next : ℕ) (key : String) (shs : List Shift) (l : ScrapeLog) (s : Server)
        → str_eq key "" ≡ false
        → select (runs_with key) s.scrape_logs ≡ some l
        → first (logs_of l.user_id s.scrape_logs) ≡ some l
        → first (
            logs_of l.user_id
              (scrape_submit_shifts timezone is_location parse_in_location now next key
                (some shs)
                s).1.scrape_logs)
          ≡ some (
              succeed_log timezone is_location parse_in_location now
                (length shs)
                (new_of now shs l s)
                l)
    unfolding logs_of
    first-submitted now next key shs l s nonempty found newest_one =
        let f =
          succeed_log timezone is_location parse_in_location now (length shs)
            (new_of now shs l s) in
        ap (λ logs. first (logs_of l.user_id logs))
          (submitted_logs now next key shs l s nonempty found)
        ∙ ap first (
            newest-select_all-update started (has_id l.id) f (is_of l.user_id) s.scrape_logs
              (λ m. refl) (λ m. refl))
        ∙ first-update (has_id l.id) f (logs_of l.user_id s.scrape_logs) l newest_one
            ((eq_iff l.id l.id).1 refl)

-- When the onboarding page that waits for a scrape has seen it running, within its time limit, and
-- then the scraper's shifts are taken for that scrape, which is the user's newest, the next poll ends
-- the waiting, at any time: the page shows success with the number of shifts that were posted.
pub on_poll-scrape_submit_shifts :
    (format_time : ℕ → String) (marshal : List String → String)
    (unmarshal : String → Option (List String)) (timezone : String → Option String)
    (is_location : String → Bool) (parse_in_location : (format text location : String) → Option ℤ)
    (now next polled later : ℕ) (key : String) (shs : List Shift) (l : ScrapeLog) (s : Server)
    (page : Onboarding)
    → str_eq key "" ≡ false
    → select (runs_with key) s.scrape_logs ≡ some l
    → first (logs_of l.user_id s.scrape_logs) ≡ some l
    → page.step ≡ scraping
    → polled - page.scrape_start ≤ timeout_threshold
    → let s' =
        (scrape_submit_shifts timezone is_location parse_in_location now next key (some shs) s).1 in
      let seen = scrape_status format_time marshal unmarshal l.user_id s.scrape_logs in
      let result = scrape_status format_time marshal unmarshal l.user_id s'.scrape_logs in
      let t = on_poll later result (on_poll polled seen page) in
      (t.step ≡ succeeded)
      × (t.poll_ref ≡ none)
      × (t.scrape_result ≡ some result)
      × (result.shifts_found ≡ some (length shs))
on_poll-scrape_submit_shifts format_time marshal unmarshal timezone is_location parse_in_location
      now next polled later key shs l s page nonempty found newest_one waiting early =
    let s' =
      (scrape_submit_shifts timezone is_location parse_in_location now next key (some shs) s).1 in
    let seen = scrape_status format_time marshal unmarshal l.user_id s.scrape_logs in
    let result = scrape_status format_time marshal unmarshal l.user_id s'.scrape_logs in
    let shown = scrape_status-first format_time marshal unmarshal l.user_id s'.scrape_logs _ (
      first-submitted format_time marshal unmarshal timezone is_location parse_in_location now next
        key shs l s nonempty found newest_one) in
    let runs : is_running l.status ≡ true =
      ground (arith, select-passes (runs_with key) s.scrape_logs l found) in
    let seen_running : seen.status ≡ some RunStatus.running =
      ap (λ (d : ScrapeStatus). d.status)
        (scrape_status-first format_time marshal unmarshal l.user_id s.scrape_logs l newest_one)
      ∙ ap some (is_running-eq l.status runs) in
    let succeeds : result.status ≡ some RunStatus.success =
      ap (λ (d : ScrapeStatus). d.status) shown in
    let (taken, stopped, (_, shows), _) =
      on_poll-running polled later seen result page waiting seen_running early (inl succeeds) in
    (shows succeeds, stopped, taken, ap (λ (d : ScrapeStatus). d.shifts_found) shown)
