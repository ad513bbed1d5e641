-- ===== src/Server/Scrapes/History/Reports.antt =====
-- A report that is taken ends the scrape of its key, and credentials that are given are marked.
use mathlib.Core.Path.{subst}
use starbies_schedule_sync.Base.{
  ℕ, String, ◌≡◌, ◌≢◌, refl, sym, ap, Bool, true, false, Option, none, some, List, [], ◌∷◌, is_some,
  if◌then◌else◌, if_either, ltb, ◌&&◌, str_eq, All, Bool-cases, inl, inr, arith, eq_iff,
}
use starbies_schedule_sync.Base.Int.{ℤ}
use starbies_schedule_sync.Scraper.Schedule.{Shift}
use starbies_schedule_sync.Scraper.Script.{Credentials}
use starbies_schedule_sync.Server.Scrapes.{
  ScrapeLog, Server, Answer, ok, bad_request, is_running, runs_with, has_key, has_id, look_up,
  unless_fetched,
}
use starbies_schedule_sync.Server.Tables.{select, update, update-All}
use starbies_schedule_sync.Server.Scrapes.Callbacks.{
  fail_log, max_retries, Counts, FailureBody, schedule_next, retry_or_schedule,
  handle_scrape_failure, on_failure, scrape_submit_failure, on_shifts, scrape_submit_shifts,
}
use starbies_schedule_sync.Server.Scrapes.History.{
  Event, started, asked_credentials, sent_shifts, sent_failure, reaped, retained, step,
}
use starbies_schedule_sync.Server.Scrapes.History.Keys.{ended, Follows, Logs}
use starbies_schedule_sync.Server.Scrapes.History.Rows.{Lacks, IsUnique}

-- The scrape of the key is over; its credentials were fetched.
abbrev pub Over : String → ScrapeLog → Type 0
Over key l = has_key key l ≡ true → is_running l.status ≡ false

abbrev pub Fetched : String → ScrapeLog → Type 0
Fetched key l = has_key key l ≡ true → is_some l.credentials_fetched_at ≡ true

abbrev pub Other : String → String → Type 0
Other key k = str_eq k key ≡ false

pub Over-Follows : (key : String) (l l' : ScrapeLog) → Follows l l' → Over key l → Over key l'
Over-Follows key l l' f o h = f.over (o (rw (f.same_key) at h))

pub Fetched-Follows :
    (key : String) (l l' : ScrapeLog) → Follows l l' → Fetched key l → Fetched key l'
Fetched-Follows key l l' f o h = f.fetched (o (rw (f.same_key) at h))

Lacks-Over : (key : String) (ls : Logs) → All (Lacks key) ls → All (Over key) ls
Lacks-Over key [] a = tt
Lacks-Over key (l ∷ ls) a = ((λ h. ground arith), Lacks-Over key ls (a.1))

-- Where rows are unique, the end of the running row of a key ends the scrape of the key.
close-Over :
    (key : String) (f : ScrapeLog → ScrapeLog) (ls : Logs) (l : ScrapeLog)
    → ((x : ScrapeLog) → Follows x (f x))
    → ((x : ScrapeLog) → is_running (f x).status ≡ false)
    → IsUnique ls
    → select (runs_with key) ls ≡ some l
    → All (Over key) (update (has_id l.id) f ls)
unfolding select update
close-Over key f [] l k ends u h = absurd cc
close-Over key f (x ∷ ls) l k ends u h = elim (Bool-cases (runs_with key x)) [
  | inl e ↦
      let same : x ≡ l = ground arith in
      let mine : x.scrape_key ≡ key = (eq_iff x.scrape_key key).0 (ground arith) in
      let hit : has_id l.id x ≡ true = (eq_iff x.id l.id).1 (ap (λ (y : ScrapeLog). y.id) same) in
      let others = Lacks-Over key ls (subst (λ j. All (Lacks j) ls) mine (u.0)) in
      (
        rw hit (λ _. ends x),
        update-All (Over key) (has_id l.id) f ls (λ y. Over-Follows key y (f y) (k y)) others,
      )
  | inr e ↦ (
    if_either (Over key) (has_id l.id x) (λ _. ends x) (λ mine. ground arith),
    close-Over key f ls l k ends (u.1) (ground arith),
  )
]

-- No row of the key is found running.
pub Over-none : (key : String) (ls : Logs) → All (Over key) ls → select (runs_with key) ls ≡ none
unfolding select
Over-none key [] a = refl
Over-none key (l ∷ ls) a = ground (arith, Over-none key ls (a.1), a.0)

pub mark-Fetched :
    (key : String) (now : ℕ) (ls : Logs)
    → All
        (Fetched key)
        (update (has_key key) (λ l. record l { credentials_fetched_at = some now }) ls)
unfolding update
mark-Fetched key now [] = tt
mark-Fetched key now (l ∷ ls) = (
  elim (Bool-cases (has_key key l)) [ inl e ↦ rw e (λ _. refl) | inr e ↦ rw e (λ h. absurd cc) ],
  mark-Fetched key now ls,
)

Fetched-select :
    (load : String → Option Credentials) (key : String) (ls : Logs) (creds : Credentials)
    → All (Fetched key) ls
    → unless_fetched load (select (runs_with key) ls) ≢ ok creds
unfolding select
Fetched-select load key [] creds a h = absurd cc
Fetched-select load key (l ∷ ls) creds a h =
    ground (arith, a.0, Fetched-select load key ls creds (a.1))

pub Fetched-look_up :
    (load : String → Option Credentials) (key : String) (s : Server) (creds : Credentials)
    → All (Fetched key) s.scrape_logs
    → look_up load key s ≢ ok creds
unfolding look_up
Fetched-look_up load key s creds a h = elim (Bool-cases (str_eq key "")) [
  | inl e ↦ absurd (ground arith)
  | inr e ↦ Fetched-select load key s.scrape_logs creds a (ground arith)
]

retry-logs :
    (now next : ℕ) (user : String) (l : Option ScrapeLog) (s : Server)
    → (retry_or_schedule now next user l s).scrape_logs ≡ s.scrape_logs
unfolding schedule_next
retry-logs now next user none s = refl
retry-logs now next user (some l) s =
    if_either (λ (t : Server). t.scrape_logs ≡ s.scrape_logs)
      (l.is_auto && ltb l.retry_count max_retries) refl refl

on_failure-Over :
    (now next : ℕ) (key : String) (body : Option FailureBody) (l : Option ScrapeLog) (s : Server)
    → IsUnique s.scrape_logs
    → select (runs_with key) s.scrape_logs ≡ l
    → (on_failure now next body l s).0 ≡ ok tt
    → All (Over key) (on_failure now next body l s).1.scrape_logs
unfolding handle_scrape_failure
on_failure-Over now next key body none s u e h = absurd cc
on_failure-Over now next key none (some l) s u e h = absurd cc
on_failure-Over now next key (some body) (some l) s u e h =
    let f = fail_log now "scraper reported failure" (some body.logs) (some body.screenshots) in
    let s' : Server = record s { scrape_logs = update (has_id l.id) f s.scrape_logs } in
    let kept = retry-logs now next l.user_id (select (has_id l.id) s'.scrape_logs) s' in
    subst (All (Over key)) (sym kept)
      (close-Over key f s.scrape_logs l (λ x. ended x (f x) refl refl refl) (λ x. refl) u e)

-- A handler answers 200 only where its key is not empty.
guarded-Over :
    {A : Type 0} (key : String) (b : Bool) (r : Answer A × Server) (a : A) (s : Server)
    → (if b then (bad_request, s) else r).0 ≡ ok a
    → (r.0 ≡ ok a → All (Over key) r.1.scrape_logs)
    → (b ≡ false) × All (Over key) (if b then (bad_request, s) else r).1.scrape_logs
guarded-Over key true r a s h k = absurd cc
guarded-Over key false r a s h k = (refl, k h)

module _ (load : String → Option Credentials) (timezone : String → Option String)
    (is_location : String → Bool)
    (parse_in_location : (format text location : String) → Option ℤ) where
  on_shifts-Over :
      (now next : ℕ) (key : String) (body : Option (List Shift)) (l : Option ScrapeLog) (s : Server)
      (c : Counts)
      → IsUnique s.scrape_logs
      → select (runs_with key) s.scrape_logs ≡ l
      → (on_shifts timezone is_location parse_in_location now next body l s).0 ≡ ok c
      → All
          (Over key)
          (on_shifts timezone is_location parse_in_location now next body l s).1.scrape_logs
  unfolding schedule_next
  on_shifts-Over now next key body none s c u e h = absurd cc
  on_shifts-Over now next key none (some l) s c u e h = absurd cc
  on_shifts-Over now next key (some shs) (some l) s c u e h =
      close-Over key _ s.scrape_logs l (λ x. ended x _ refl refl refl) (λ x. refl) u e

  -- A report that the server takes.
  abbrev pub IsTaken : String → Event → Server → Type 0
  IsTaken key (sent_shifts now next k body) s =
      (k ≡ key)
      × ((c : Counts) × ((scrape_submit_shifts timezone is_location parse_in_location now next k
              body s).0
            ≡ ok c))
  IsTaken key (sent_failure now next k body) s =
      (k ≡ key) × ((scrape_submit_failure now next k body s).0 ≡ ok tt)
  IsTaken key _ s = ⊥

  pub step-Over :
      (key : String) (e : Event) (s : Server)
      → IsUnique s.scrape_logs
      → IsTaken key e s
      → (str_eq key "" ≡ false)
        × All (Over key) (step load timezone is_location parse_in_location e s).scrape_logs
  unfolding step scrape_submit_shifts scrape_submit_failure
  step-Over key (sent_shifts now next k body) s u (same, (c, h)) =
      let l = select (runs_with k) s.scrape_logs in
      subst
        (λ j.
          (str_eq j "" ≡ false)
          × All (Over j)
              (step load timezone is_location parse_in_location (sent_shifts now next k body)
                s).scrape_logs)
        same
        (guarded-Over k (str_eq k "")
          (on_shifts timezone is_location parse_in_location now next body l s) c s h
          (on_shifts-Over now next k body l s c u refl))
  step-Over key (sent_failure now next k body) s u (same, h) =
      let l = select (runs_with k) s.scrape_logs in
      subst
        (λ j.
          (str_eq j "" ≡ false)
          × All (Over j)
              (step load timezone is_location parse_in_location (sent_failure now next k body)
                s).scrape_logs)
        same
        (guarded-Over k (str_eq k "") (on_failure now next body l s) tt s h
          (on_failure-Over now next k body l s u refl))
  step-Over key (started _ _ _ _) s u h = absurd h
  step-Over key (asked_credentials _ _) s u h = absurd h
  step-Over key (reaped _ _) s u h = absurd h
  step-Over key (retained _) s u h = absurd h
