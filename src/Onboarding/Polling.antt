-- ===== src/Onboarding/Polling.antt =====
-- When a poll decides, and what it ignores.
use starbies_schedule_sync.Base.{
  ℕ, ◌-◌, ◌≤◌, ◌<◌, ◌≡◌, ◌≢◌, ◌⊎◌, ◌↔◌, true, false, Option, none, some, List, [], ◌∷◌, arith, All,
  is_some, ◌==◌, inl, inr, Option-cases,
}
use starbies_schedule_sync.Api.Types.{running, success, failure, ScrapeStatus}
use starbies_schedule_sync.Onboarding.{
  Onboarding, clear_interval, scraping, succeeded, failed, slow_threshold, timeout_threshold,
  on_poll, on_submitted,
}

-- The page accepts what a poll says: it does not wait for a new scrape, or has waited too long.
abbrev pub Accepts : ℕ → Onboarding → Type 0
Accepts now s = (s.awaiting_new_scrape ≡ false) ⊎ (timeout_threshold < now - s.scrape_start)

-- The interval that the page kept is not among these.
abbrev pub IsCleared : Option ℕ → List ℕ → Type 0
IsCleared none intervals = Unit
IsCleared (some id) intervals = All (λ i. (i == id) ≡ false) intervals

clear_interval-All :
    (id : ℕ) (intervals : List ℕ) → All (λ i. (i == id) ≡ false) (clear_interval id intervals)
unfolding clear_interval
clear_interval-All id [] = tt
clear_interval-All id (i ∷ intervals) = ground (arith, clear_interval-All id intervals)

-- What a poll leaves: a verdict without polling, or the page as it was, but for what it waits for and
-- for being slow.
abbrev pub Outcome : Onboarding → Onboarding → Type 0
Outcome s t =
    (((t.step ≡ succeeded) ⊎ (t.step ≡ failed))
      × (t.poll_ref ≡ none)
      × IsCleared s.poll_ref t.intervals)
    ⊎ ((t.step ≡ scraping)
        × (t.poll_ref ≡ s.poll_ref)
        × (t.intervals ≡ s.intervals)
        × (t.scrape_result ≡ s.scrape_result)
        × (t.error ≡ s.error)
        × (t.reported ≡ s.reported))

module _ (now : ℕ) (status : ScrapeStatus) (s : Onboarding) (h : s.step ≡ scraping) where
  -- While connecting, a poll ends in success exactly on an accepted success; it ends in failure
  -- exactly on an accepted failure, or past the time limit on anything but a success; either way the
  -- polling stops. Otherwise the page shows that it is connecting, polls on with the interval that it
  -- had, and shows no other result.
  pub on_poll_verdict :
      (((on_poll now status s).step ≡ succeeded) ↔ ((status.status ≡ some success) × Accepts now s))
      × (((on_poll now status s).step ≡ failed) ↔ (
          (status.status ≢ some success)
          × (((status.status ≡ some failure) × Accepts now s)
              ⊎ (timeout_threshold < now - s.scrape_start))))
      × Outcome s (on_poll now status s)
  unfolding on_poll
  on_poll_verdict = elim (Option-cases s.poll_ref) [
    | inl e ↦ ground arith
    | inr (id, e) ↦ ground (arith, clear_interval-All id s.intervals)
  ]

  -- A poll that is answered past the time limit ends the connecting card and the polling.
  pub on_poll_late :
      timeout_threshold < now - s.scrape_start
      → ((on_poll now status s).step ≢ scraping) × ((on_poll now status s).poll_ref ≡ none)
  unfolding on_poll
  on_poll_late late = ground arith

abbrev pub after_polls : List (ℕ × ScrapeStatus) → Onboarding → Onboarding
after_polls [] s = s
after_polls ((now, status) ∷ polls) s = after_polls polls (on_poll now status s)

-- A poll within the time limit that does not see a running scrape.
abbrev pub IsStale : ℕ → ℕ × ScrapeStatus → Type 0
IsStale start (now, status) = (status.status ≢ some running) × (now - start ≤ timeout_threshold)

-- What a state that waits for a new scrape keeps under stale polls.
pub record IsWaiting (start : ℕ) (result : Option ScrapeStatus) (s : Onboarding) : Type 0 where
  pub connecting : s.step ≡ scraping
  pub waits : s.awaiting_new_scrape ≡ true
  pub started : s.scrape_start ≡ start
  pub polls : is_some s.poll_ref ≡ true
  pub result_kept : s.scrape_result ≡ result

module _ {start : ℕ} {result : Option ScrapeStatus} where
  on_poll-IsWaiting :
      (now : ℕ) (status : ScrapeStatus) (s : Onboarding)
      → IsStale start (now, status)
      → IsWaiting start result s
      → IsWaiting start result (on_poll now status s)
  unfolding on_poll
  on_poll-IsWaiting now status s stale w = ground arith

  after_polls-IsWaiting :
      (polls : List (ℕ × ScrapeStatus)) (s : Onboarding)
      → All (IsStale start) polls
      → IsWaiting start result s
      → IsWaiting start result (after_polls polls s)
  after_polls-IsWaiting [] s stale w = w
  after_polls-IsWaiting ((now, status) ∷ polls) s (h, stale) w =
      after_polls-IsWaiting polls (on_poll now status s) stale (on_poll-IsWaiting now status s h w)

-- After credentials were accepted, results of an earlier scrape change nothing: as long as the polls
-- within the time limit see no running scrape, the page shows that it is connecting, keeps polling
-- and waiting, and takes over no result.
pub on_submitted-stale :
    (now : ℕ) (s : Onboarding) (polls : List (ℕ × ScrapeStatus))
    → All (IsStale now) polls
    → IsWaiting now s.scrape_result (after_polls polls (on_submitted now s))
unfolding on_submitted
on_submitted-stale now s polls stale =
    after_polls-IsWaiting polls (on_submitted now s) stale (ground arith)

-- Once a poll has seen the new scrape running, the next success or failure is taken over, at any
-- time, with its result.
pub on_poll-running :
    (now later : ℕ) (seen result : ScrapeStatus) (s : Onboarding)
    → s.step ≡ scraping
    → seen.status ≡ some running
    → now - s.scrape_start ≤ timeout_threshold
    → (result.status ≡ some success) ⊎ (result.status ≡ some failure)
    → let t = on_poll later result (on_poll now seen s) in
      (t.scrape_result ≡ some result)
      × (t.poll_ref ≡ none)
      × ((t.step ≡ succeeded) ↔ (result.status ≡ some success))
      × ((t.step ≡ failed) ↔ (result.status ≡ some failure))
unfolding on_poll
on_poll-running now later seen result s h run early end = ground arith

-- The page says that the scrape is slow exactly from the first poll past the threshold.
pub on_poll-is_slow :
    (now : ℕ) (status : ScrapeStatus) (s : Onboarding)
    → ((on_poll now status s).is_slow ≡ true)
      ↔ ((s.is_slow ≡ true) ⊎ (slow_threshold < now - s.scrape_start))
unfolding on_poll
on_poll-is_slow now status s = ground arith
