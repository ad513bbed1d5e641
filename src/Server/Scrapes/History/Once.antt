-- ===== src/Server/Scrapes/History/Once.antt =====
-- What happens once for each key: the credentials are given, and a report is taken.
use starbies_schedule_sync.Base.{
  ℕ, String, ◌≡◌, ◌≢◌, refl, Bool, false, Option, List, [], ◌∷◌, str_eq, All, arith,
}
use starbies_schedule_sync.Base.Int.{ℤ}
use starbies_schedule_sync.Scraper.Schedule.{Shift}
use starbies_schedule_sync.Scraper.Script.{Credentials}
use starbies_schedule_sync.Server.Scrapes.{
  ShiftRow, Planned, Server, Answer, ok, bad_request, not_found, gone, internal_server_error,
  mark_fetched, look_up, after_look_up, scrape_get_credentials,
}
use starbies_schedule_sync.Server.Scrapes.Callbacks.{
  FailureBody, scrape_submit_failure, scrape_submit_shifts,
}
use starbies_schedule_sync.Server.Scrapes.History.{
  Event, started, asked_credentials, sent_shifts, sent_failure, reaped, retained, step, run,
}
use starbies_schedule_sync.Server.Scrapes.History.Keys.{stay, IsAllowed, run-Moves}
use starbies_schedule_sync.Server.Scrapes.History.Rows.{Moves-All, Moves-IsUnique}
use starbies_schedule_sync.Server.Scrapes.History.Reports.{
  Over, Fetched, Other, Over-Follows, Fetched-Follows, Over-none, mark-Fetched, Fetched-look_up,
  IsTaken, step-Over,
}

module _ (load : String → Option Credentials) (timezone : String → Option String)
    (is_location : String → Bool)
    (parse_in_location : (format text location : String) → Option ℤ) where
  all-IsAllowed :
      (es : List Event) → All (IsAllowed load timezone is_location parse_in_location (λ _. Unit)) es
  all-IsAllowed [] = tt
  all-IsAllowed (started _ _ _ _ ∷ es) = ((λ i. tt), all-IsAllowed es)
  all-IsAllowed (asked_credentials _ _ ∷ es) = (tt, all-IsAllowed es)
  all-IsAllowed (sent_shifts _ _ _ _ ∷ es) = (tt, all-IsAllowed es)
  all-IsAllowed (sent_failure _ _ _ _ ∷ es) = (tt, all-IsAllowed es)
  all-IsAllowed (reaped _ _ ∷ es) = (tt, all-IsAllowed es)
  all-IsAllowed (retained _ ∷ es) = (tt, all-IsAllowed es)

  -- The server before its first scrape.
  abbrev pub opened : List ShiftRow → (String → Option Planned) → Server
  opened shifts schedule = record {
    scrape_logs = [];
    shifts = shifts;
    scrape_schedule = schedule;
    retries = [];
  }

  abbrev pub Without : String → Event → Type 0
  Without key e = IsAllowed load timezone is_location parse_in_location (Other key) e

  abbrev pub history : List Event → Server → Server
  history es s = run load timezone is_location parse_in_location es s

  abbrev pub Refuses : String → Server → Type 0
  Refuses key s =
      ((now : ℕ) → (scrape_get_credentials load now key s).0 ≡ not_found)
      × ((now next : ℕ) (body : Option (List Shift))
          → (scrape_submit_shifts timezone is_location parse_in_location now next key body s).0
            ≡ not_found)
      × ((now next : ℕ) (body : Option FailureBody)
          → (scrape_submit_failure now next key body s).0 ≡ not_found)

  Over-Refuses :
      (key : String) (s : Server)
      → str_eq key "" ≡ false
      → All (Over key) s.scrape_logs
      → Refuses key s
  unfolding scrape_get_credentials scrape_submit_shifts scrape_submit_failure look_up
  Over-Refuses key s e a =
      let gone' = Over-none key s.scrape_logs a in
      (
        λ now. rw (e, gone') refl,
        λ now next body. rw (e, gone') refl,
        λ now next body. rw (e, gone') refl,
      )

  -- Once the server has taken a report for a key, of shifts or of a failure, it refuses whatever
  -- comes with that key: the credentials and both kinds of report are answered with 404. So it is
  -- after any history from a server without scrapes, and in any history later on, of scrapes with
  -- other keys, requests, reaping and retention, one after the other.
  pub step-Refuses :
      (shifts : List ShiftRow) (schedule : String → Option Planned) (es later : List Event)
      (key : String) (e : Event)
      → IsTaken load timezone is_location parse_in_location key e
          (history es (opened shifts schedule))
      → All (Without key) later
      → Refuses key (
          history later (
            step load timezone is_location parse_in_location e
              (history es (opened shifts schedule))))
  step-Refuses shifts schedule es later key e taken others =
      let s0 = opened shifts schedule in
      let s = history es s0 in
      let anything : String → Type 0 = λ _. Unit in
      let unique = Moves-IsUnique anything [] s.scrape_logs tt (
        run-Moves load timezone is_location parse_in_location anything [] es s0 (all-IsAllowed es)
          stay) in
      let (named, over) =
        step-Over load timezone is_location parse_in_location key e s unique taken in
      let s1 = step load timezone is_location parse_in_location e s in
      Over-Refuses key (history later s1) named (
        Moves-All (Over key) (Other key) s1.scrape_logs (history later s1).scrape_logs
          (Over-Follows key) (λ l new mine. ground arith) over
          (run-Moves load timezone is_location parse_in_location (Other key) s1.scrape_logs later s1
            others stay))

  after_look_up-Fetched :
      (now : ℕ) (key : String) (r : Answer Credentials) (s : Server) (creds : Credentials)
      → (after_look_up load now key r s).0 ≡ ok creds
      → All (Fetched key) (after_look_up load now key r s).1.scrape_logs
  unfolding mark_fetched
  after_look_up-Fetched now key (ok c) s creds h = mark-Fetched key now s.scrape_logs
  after_look_up-Fetched now key bad_request s creds h = absurd cc
  after_look_up-Fetched now key not_found s creds h = absurd cc
  after_look_up-Fetched now key gone s creds h = absurd cc
  after_look_up-Fetched now key internal_server_error s creds h = absurd cc

  given :
      (now : ℕ) (key : String) (r : Answer Credentials) (s : Server) (creds : Credentials)
      → (after_look_up load now key r s).0 ≡ ok creds
      → r ≡ ok creds
  given now key (ok c) s creds h = h
  given now key bad_request s creds h = h
  given now key not_found s creds h = h
  given now key gone s creds h = h
  given now key internal_server_error s creds h = h

  -- Once the server has given the credentials for a key, it does not give any for it again, in
  -- whatever history follows of scrapes with other keys, requests, reports, reaping and retention,
  -- one after the other.
  pub scrape_get_credentials_once :
      (s : Server) (now : ℕ) (key : String) (creds : Credentials) (later : List Event)
      → (scrape_get_credentials load now key s).0 ≡ ok creds
      → All (Without key) later
      → (now' : ℕ) (creds' : Credentials)
      → (scrape_get_credentials load now' key
          (history later (scrape_get_credentials load now key s).1)).0
        ≢ ok creds'
  unfolding scrape_get_credentials
  scrape_get_credentials_once s now key creds later h others now' creds' h' =
      let s1 = (scrape_get_credentials load now key s).1 in
      let s2 = history later s1 in
      Fetched-look_up load key s2 creds'
        (Moves-All (Fetched key) (Other key) s1.scrape_logs s2.scrape_logs (Fetched-Follows key)
          (λ l new mine. ground arith)
          (after_look_up-Fetched now key (look_up load key s) s creds h)
          (run-Moves load timezone is_location parse_in_location (Other key) s1.scrape_logs later s1
            others stay))
        (given now' key (look_up load key s2) s2 creds' h')
