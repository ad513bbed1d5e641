-- ===== src/Server/Scrapes/Service/Starting.antt =====
-- How a call of `scrapeForUser` ends.
use native.Mathlib.Nat.{le_refl}
use starbies_schedule_sync.Base.{
  ℕ, zero, suc, ◌+◌, ◌-◌, ◌≤◌, String, ◌≡◌, ◌⊎◌, inl, inr, refl, Bool, true, false, Option, none,
  some, List, [], ◌∷◌, ◌++◌, Has, is_some, ◌<◌, if_either, str_eq, arith, eq_iff,
}
use starbies_schedule_sync.Server.Scrapes.{ScrapeLog, Planned, Server, has_id}
use starbies_schedule_sync.Server.Tables.{select, update}
use starbies_schedule_sync.Server.Scrapes.Callbacks.{max_retries, schedule_next}
use starbies_schedule_sync.Server.Scrapes.Service.{
  Attempt, new_log, conflicts, could_not_start, after_start, insert_log, scrape_for_user,
  start_scrape,
}

Has-last : (ls : List ScrapeLog) (l : ScrapeLog) → Has l (ls ++ l ∷ [])
Has-last [] l = inl refl
Has-last (x ∷ ls) l = inr (Has-last ls l)

-- The id and the key of an attempt are new.
abbrev pub Free : Attempt → List ScrapeLog → Type 0
Free a ls = is_some (select (conflicts a) ls) ≡ false

Free-append :
    (a : Attempt) (ls : List ScrapeLog) (l : ScrapeLog)
    → Free a ls
    → conflicts a l ≡ false
    → Free a (ls ++ l ∷ [])
unfolding select
Free-append a [] l h c = rw c refl
Free-append a (x ∷ ls) l h c = ground (arith, Free-append a ls l)

Free-update :
    (a : Attempt) (id : String) (now : ℕ) (message : String) (ls : List ScrapeLog)
    → Free a ls
    → Free a (update (has_id id) (could_not_start now message) ls)
unfolding select update
Free-update a id now message [] h = h
Free-update a id now message (l ∷ ls) h =
    let c : conflicts a l ≡ false = ground arith in
    let c' =
      if_either (λ (x : ScrapeLog). conflicts a x ≡ false) (has_id id l)
        {x = could_not_start now message l} {y = l} c c in
    rw c' (Free-update a id now message ls (ground arith))

module _ (attempts : ℕ → Attempt) (user_id : String) (is_auto : Bool) where
  -- An attempt started its container, and its row is there, running.
  abbrev pub Runs : Server → Type 0
  Runs s =
      (i : ℕ) × ((attempts i).error ≡ none)
      × Has (new_log user_id i is_auto (attempts i)) s.scrape_logs

  -- The next scrape is planned, by an attempt without a retry left where scrapes are retried.
  abbrev pub Plans : Server → Type 0
  Plans s =
      (i : ℕ) × (s.scrape_schedule user_id
        ≡ some (record {
          next_scrape_at = (attempts i).next;
          last_scraped_at = some (attempts i).planned_at;
        }))
      × (is_auto ≡ true → max_retries ≤ i)

  abbrev pub Settles : Server → Type 0
  Settles s = Runs s ⊎ Plans s

  -- No row has the id or the key of an attempt from `i` on.
  abbrev IsFresh : ℕ → Server → Type 0
  IsFresh i s = (j : ℕ) → i ≤ j → j ≤ max_retries → Free (attempts j) s.scrape_logs

  abbrev IsListed : Server → Type 0
  IsListed s = (p : Planned) × (s.scrape_schedule user_id ≡ some p)

  schedule_next-Plans :
      (i : ℕ) (s : Server)
      → IsListed s
      → (is_auto ≡ true → max_retries ≤ i)
      → Plans (schedule_next (attempts i).planned_at (attempts i).next user_id s)
  unfolding schedule_next
  schedule_next-Plans i s (p, listed) last =
      let self : str_eq user_id user_id ≡ true = (eq_iff user_id user_id).1 refl in
      (i, rw (self, listed) refl, last)

  module _
      (distinct : (i j : ℕ)
        → i < j
        → j ≤ max_retries
        → conflicts (attempts j) (new_log user_id i is_auto (attempts i)) ≡ false) where
    after_start-Settles :
        (i : ℕ) (may_retry : Bool) (error : Option String) (again : Server → Server) (s : Server)
        → (attempts i).error ≡ error
        → IsListed s
        → IsFresh i s
        → (may_retry ≡ false → is_auto ≡ true → max_retries ≤ i)
        → (may_retry ≡ true → (t : Server) → IsListed t → IsFresh (i + 1) t → Settles (again t))
        → Settles (
            after_start user_id may_retry
              (attempts i)
              error
              again
              (insert_log (new_log user_id i is_auto (attempts i)) s))
    after_start-Settles i may_retry none again s e listed free last k =
        inl (i, e, Has-last s.scrape_logs (new_log user_id i is_auto (attempts i)))
    after_start-Settles i true (some message) again s e listed free last k =
        k refl _ listed (λ j later most.
          Free-update (attempts j) (attempts i).log_id (attempts i).failed_at message _ (
            Free-append (attempts j) s.scrape_logs (new_log user_id i is_auto (attempts i))
              (free j (omega arith) most) (distinct i j (omega arith) most)))
    after_start-Settles i false (some message) again s e listed free last k =
        inr (schedule_next-Plans i _ listed (last refl))

    scrape_for_user-Settles :
        (left i : ℕ) (s : Server)
        → left + i ≡ max_retries
        → IsListed s
        → IsFresh i s
        → Settles (scrape_for_user left attempts user_id i is_auto s)
    unfolding scrape_for_user
    scrape_for_user-Settles zero i s h listed free = rw (free i (le_refl i) (omega arith)) (
        after_start-Settles i false (attempts i).error (λ t. t) s refl listed free
          (λ _ _. omega arith) (λ e. absurd cc))
    scrape_for_user-Settles (suc left) i s h listed free = rw (free i (le_refl i) (omega arith)) (
        after_start-Settles i is_auto (attempts i).error
          (scrape_for_user left attempts user_id (i + 1) is_auto) s refl listed free
          (λ e e'. absurd cc) (λ e t l f. scrape_for_user-Settles left (i + 1) t (omega arith) l f))

    -- A scrape of a user whom the schedule lists, with at most three retries so far, always settles,
    -- if the random ids and keys of its attempts are new and differ: the container of an attempt has
    -- started, and its row is in `scrape_logs`, running; or the next scrape is planned for the time
    -- that an attempt gives, which for an automatic scrape is the third retry or later.
    pub start_scrape-Settles :
        (retry_count : ℕ) (s : Server) (p : Planned)
        → s.scrape_schedule user_id ≡ some p
        → retry_count ≤ max_retries
        → ((j : ℕ) → retry_count ≤ j → j ≤ max_retries → Free (attempts j) s.scrape_logs)
        → Settles (start_scrape attempts user_id retry_count is_auto s)
    start_scrape-Settles retry_count s p listed few free =
        scrape_for_user-Settles (max_retries - retry_count) retry_count s (omega arith) (p, listed)
          free
