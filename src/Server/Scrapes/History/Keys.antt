-- ===== src/Server/Scrapes/History/Keys.antt =====
-- How the rows of `scrape_logs` change: they are updated, deleted, and added with new keys.
use starbies_schedule_sync.Base.{
  ℕ, zero, suc, ◌+◌, String, ◌≡◌, refl, Bool, true, false, Option, none, some, List, [], ◌∷◌, ◌++◌,
  is_some, if◌then◌else◌, if_either, ltb, ◌-◌, ◌&&◌, str_eq, All, Bool-cases, inl, inr, arith,
}
use starbies_schedule_sync.Base.Int.{ℤ}
use starbies_schedule_sync.Scraper.Schedule.{Shift}
use starbies_schedule_sync.Scraper.Script.{Credentials}
use starbies_schedule_sync.Server.Scrapes.{
  ScrapeLog, Server, Answer, ok, bad_request, not_found, gone, internal_server_error, is_running,
  runs_with, has_key, has_id, mark_fetched, look_up, after_look_up, scrape_get_credentials,
}
use starbies_schedule_sync.Server.Tables.{select, update, delete}
use starbies_schedule_sync.Server.Scrapes.Callbacks.{
  max_retries, FailureBody, schedule_next, retry_or_schedule, handle_scrape_failure, on_failure,
  scrape_submit_failure, on_shifts, scrape_submit_shifts,
}
use starbies_schedule_sync.Server.Scrapes.Service.{
  Attempt, new_log, conflicts, after_start, insert_log, scrape_for_user, reap_all, is_timed_out,
  select_all, reap_timed_out_containers, run_retention, is_old_success, is_old_failure,
  has_old_screenshots, clear_screenshots,
}
use starbies_schedule_sync.Server.Scrapes.History.{
  Event, started, asked_credentials, sent_shifts, sent_failure, reaped, retained, step, run,
}

-- What no statement changes back: the key, that the scrape is over, and that the credentials were
-- fetched.
pub record Follows (l l' : ScrapeLog) : Type 0 where
  pub same_key : l'.scrape_key ≡ l.scrape_key
  pub over : is_running l.status ≡ false → is_running l'.status ≡ false
  pub fetched : is_some l.credentials_fetched_at ≡ true → is_some l'.credentials_fetched_at ≡ true

pub ended :
    (l l' : ScrapeLog)
    → l'.scrape_key ≡ l.scrape_key
    → is_running l'.status ≡ false
    → l'.credentials_fetched_at ≡ l.credentials_fetched_at
    → Follows l l'
ended l l' k e f = record { same_key = k; over = λ _. e; fetched = λ h. rw f h }

abbrev pub Logs : Type 0
Logs = List ScrapeLog

-- The rows `ls` become `ms`, with new rows only for keys that are allowed.
pub data Moves (Allowed : String → Type 0) (ls : Logs) : Logs → Type 0 where
  stay : Moves Allowed ls ls
  updated :
      {ms : Logs} (test : ScrapeLog → Bool) (f : ScrapeLog → ScrapeLog)
      → ((l : ScrapeLog) → Follows l (f l))
      → Moves Allowed ls ms
      → Moves Allowed ls (update test f ms)
  deleted :
      {ms : Logs} (test : ScrapeLog → Bool)
      → Moves Allowed ls ms
      → Moves Allowed ls (delete test ms)
  appended :
      {ms : Logs} (l : ScrapeLog)
      → Allowed l.scrape_key
      → select (has_key l.scrape_key) ms ≡ none
      → Moves Allowed ls ms
      → Moves Allowed ls (ms ++ l ∷ [])

no_conflict :
    (a : Attempt) (ls : Logs)
    → is_some (select (conflicts a) ls) ≡ false
    → select (has_key a.scrape_key) ls ≡ none
unfolding select
no_conflict a [] h = refl
no_conflict a (l ∷ ls) h = ground (arith, no_conflict a ls)

module _ (Allowed : String → Type 0) (ls : Logs) where
  abbrev Moved : Server → Type 0
  Moved s = Moves Allowed ls s.scrape_logs

  schedule_next-Moved :
      (now next : ℕ) (user : String) (s : Server) → Moved s → Moved (schedule_next now next user s)
  unfolding schedule_next
  schedule_next-Moved now next user s m = m

  retry-Moved :
      (now next : ℕ) (user : String) (l : Option ScrapeLog) (s : Server)
      → Moved s
      → Moved (retry_or_schedule now next user l s)
  retry-Moved now next user none s m = schedule_next-Moved now next user s m
  retry-Moved now next user (some l) s m =
      if_either Moved (l.is_auto && ltb l.retry_count max_retries) m
        (schedule_next-Moved now next user s m)

  handle_scrape_failure-Moved :
      (now next : ℕ) (id user : String) (s : Server)
      → Moved s
      → Moved (handle_scrape_failure now next id user s)
  unfolding handle_scrape_failure
  handle_scrape_failure-Moved now next id user s m =
      retry-Moved now next user (select (has_id id) s.scrape_logs) s m

  on_failure-Moved :
      (now next : ℕ) (body : Option FailureBody) (l : Option ScrapeLog) (s : Server)
      → Moved s
      → Moved (on_failure now next body l s).1
  on_failure-Moved now next body none s m = m
  on_failure-Moved now next none (some l) s m = m
  on_failure-Moved now next (some body) (some l) s m =
      handle_scrape_failure-Moved now next l.id l.user_id _
        (updated (has_id l.id) _ (λ x. ended x _ refl refl refl) m)

  submit_failure-Moved :
      (now next : ℕ) (key : String) (body : Option FailureBody) (s : Server)
      → Moved s
      → Moved (scrape_submit_failure now next key body s).1
  unfolding scrape_submit_failure
  submit_failure-Moved now next key body s m = elim (Bool-cases (str_eq key "")) [
    | inl e ↦ rw e m
    | inr e ↦ rw e (on_failure-Moved now next body (select (runs_with key) s.scrape_logs) s m)
  ]

  after_look_up-Moved :
      (now : ℕ) (key : String) (r : Answer Credentials) (load : String → Option Credentials)
      (s : Server)
      → Moved s
      → Moved (after_look_up load now key r s).1
  unfolding mark_fetched
  after_look_up-Moved now key (ok creds) load s m =
      updated (has_key key) _ (λ x. record { same_key = refl; over = λ h. h; fetched = λ _. refl })
        m
  after_look_up-Moved now key bad_request load s m = m
  after_look_up-Moved now key not_found load s m = m
  after_look_up-Moved now key gone load s m = m
  after_look_up-Moved now key internal_server_error load s m = m

  after_start-Moved :
      (user : String) (may_retry : Bool) (a : Attempt) (error : Option String)
      (again : Server → Server) (s : Server)
      → ((t : Server) → Moved t → Moved (again t))
      → Moved s
      → Moved (after_start user may_retry a error again s)
  after_start-Moved user may_retry a none again s k m = m
  after_start-Moved user true a (some message) again s k m =
      k _ (updated (has_id a.log_id) _ (λ x. ended x _ refl refl refl) m)
  after_start-Moved user false a (some message) again s k m =
      schedule_next-Moved a.planned_at a.next user _
        (updated (has_id a.log_id) _ (λ x. ended x _ refl refl refl) m)

  inserted :
      (a : Attempt) (user : String) (n : ℕ) (auto may_retry : Bool) (again : Server → Server)
      (s : Server)
      → ((t : Server) → Moved t → Moved (again t))
      → Allowed a.scrape_key
      → Moved s
      → Moved (
          if is_some (select (conflicts a) s.scrape_logs)
          then s
          else after_start user may_retry a a.error again (insert_log (new_log user n auto a) s))
  inserted a user n auto may_retry again s k new m =
      elim (Bool-cases (is_some (select (conflicts a) s.scrape_logs))) [
        | inl e ↦ rw e m
        | inr e ↦ rw e (
            after_start-Moved user may_retry a a.error again _ k
              (appended (new_log user n auto a) new (no_conflict a s.scrape_logs e) m))
      ]

  scrape_for_user-Moved :
      (left : ℕ) (attempts : ℕ → Attempt) (user : String) (n : ℕ) (auto : Bool) (s : Server)
      → ((i : ℕ) → Allowed (attempts i).scrape_key)
      → Moved s
      → Moved (scrape_for_user left attempts user n auto s)
  unfolding scrape_for_user
  scrape_for_user-Moved zero attempts user n auto s new m =
      inserted (attempts n) user n auto false _ s (λ t u. u) (new n) m
  scrape_for_user-Moved (suc left) attempts user n auto s new m =
      inserted (attempts n) user n auto auto _ s
        (λ t u. scrape_for_user-Moved left attempts user (n + 1) auto t new u) (new n) m

  reap_all-Moved :
      (now : ℕ) (next : String → ℕ) (rows : Logs) (s : Server)
      → Moved s
      → Moved (reap_all now next rows s)
  unfolding reap_all
  reap_all-Moved now next [] s m = m
  reap_all-Moved now next (l ∷ rows) s m = reap_all-Moved now next rows _ (
      handle_scrape_failure-Moved now (next l.id) l.id l.user_id _
        (updated (has_id l.id) _ (λ x. ended x _ refl refl refl) m))

  run_retention-Moved : (now : ℕ) (s : Server) → Moved s → Moved (run_retention now s)
  unfolding run_retention
  run_retention-Moved now s m =
      updated (has_old_screenshots now) clear_screenshots
        (λ x. record { same_key = refl; over = λ h. h; fetched = λ h. h })
        (deleted (is_old_failure now) (deleted (is_old_success now) m))

module _ (Allowed : String → Type 0) (ls : Logs) (timezone : String → Option String)
    (is_location : String → Bool)
    (parse_in_location : (format text location : String) → Option ℤ) where
  on_shifts-Moved :
      (now next : ℕ) (body : Option (List Shift)) (l : Option ScrapeLog) (s : Server)
      → Moved Allowed ls s
      → Moved Allowed ls (on_shifts timezone is_location parse_in_location now next body l s).1
  on_shifts-Moved now next body none s m = m
  on_shifts-Moved now next none (some l) s m = m
  on_shifts-Moved now next (some shs) (some l) s m =
      schedule_next-Moved Allowed ls now next l.user_id _
        (updated (has_id l.id) _ (λ x. ended x _ refl refl refl) m)

  submit_shifts-Moved :
      (now next : ℕ) (key : String) (body : Option (List Shift)) (s : Server)
      → Moved Allowed ls s
      → Moved Allowed ls
          (scrape_submit_shifts timezone is_location parse_in_location now next key body s).1
  unfolding scrape_submit_shifts
  submit_shifts-Moved now next key body s m = elim (Bool-cases (str_eq key "")) [
    | inl e ↦ rw e m
    | inr e ↦ rw e (on_shifts-Moved now next body (select (runs_with key) s.scrape_logs) s m)
  ]

module _ (load : String → Option Credentials) (timezone : String → Option String)
    (is_location : String → Bool)
    (parse_in_location : (format text location : String) → Option ℤ) where
  abbrev pub IsAllowed : (String → Type 0) → Event → Type 0
  IsAllowed Allowed (started attempts user n auto) = (i : ℕ) → Allowed (attempts i).scrape_key
  IsAllowed Allowed _ = Unit

  step-Moved :
      (Allowed : String → Type 0) (ls : Logs) (e : Event) (s : Server)
      → IsAllowed Allowed e
      → Moved Allowed ls s
      → Moved Allowed ls (step load timezone is_location parse_in_location e s)
  unfolding step scrape_get_credentials scrape_submit_shifts reap_timed_out_containers
  step-Moved Allowed ls (started attempts user n auto) s new m =
      scrape_for_user-Moved Allowed ls (max_retries - n) attempts user n auto s new m
  step-Moved Allowed ls (asked_credentials now key) s new m =
      after_look_up-Moved Allowed ls now key (look_up load key s) load s m
  step-Moved Allowed ls (sent_shifts now next key body) s new m =
      submit_shifts-Moved Allowed ls timezone is_location parse_in_location now next key body s m
  step-Moved Allowed ls (sent_failure now next key body) s new m =
      submit_failure-Moved Allowed ls now next key body s m
  step-Moved Allowed ls (reaped now next) s new m =
      reap_all-Moved Allowed ls now next (select_all (is_timed_out now) s.scrape_logs) s m
  step-Moved Allowed ls (retained now) s new m = run_retention-Moved Allowed ls now s m

  -- A history moves the rows, with new ones only for the keys of its starts.
  pub run-Moves :
      (Allowed : String → Type 0) (ls : Logs) (es : List Event) (s : Server)
      → All (IsAllowed Allowed) es
      → Moves Allowed ls s.scrape_logs
      → Moves Allowed ls (run load timezone is_location parse_in_location es s).scrape_logs
  unfolding run
  run-Moves Allowed ls [] s a m = m
  run-Moves Allowed ls (e ∷ es) s a m =
      run-Moves Allowed ls es _ (a.1) (step-Moved Allowed ls e s (a.0) m)
