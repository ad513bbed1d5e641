-- ===== src/Onboarding/Tests.antt =====
-- Runs of the onboarding page.
use starbies_schedule_sync.Base.{
  ◌-◌, ◌<◌, ◌≤◌, ◌≡◌, String, Option, ◌≢◌, ◌⊎◌, ◌↔◌, refl, true, false, none, some, List, [], ◌∷◌,
  arith,
}
use starbies_schedule_sync.Api.Types.{running, success, failure, ScrapeStatus}
use starbies_schedule_sync.Fixtures.{status_is}
use starbies_schedule_sync.Onboarding.{
  Onboarding, form, scraping, succeeded, failed, mounted, show_form, on_poll, on_submitted,
  timeout_threshold, on_submit,
}
use starbies_schedule_sync.Onboarding.Machine.{
  Page, opened, mount_error, submit, submitted, tick, poll, Reach, here, next,
}
use starbies_schedule_sync.Onboarding.Invariant.{Inv, Reach-Inv}
use starbies_schedule_sync.Onboarding.Polling.{
  Accepts, IsWaiting, Outcome, after_polls, on_poll_verdict, on_submitted-stale,
}
use starbies_schedule_sync.Onboarding.Card.{render, connection_failed, all_set, we_found}
use starbies_schedule_sync.Onboarding.Leaving.{
  leave, Aftermath, left, then_step, leave-no_interval, leave_leaks,
}

runs : Unit {0}
unfolding show_form on_submit on_submitted on_poll render leave
runs = tt

-- Credentials accepted at time 1000.
abbrev connecting : Onboarding
connecting = on_submitted 1000 mounted

abbrev asked : Page
asked = record { ui = connecting; checking = false; in_flight = 1; submissions = 0 }

Reach-asked : Reach opened asked
unfolding runs
Reach-asked =
    next (next (next (next here (mount_error refl)) (submit refl)) (submitted 1000 0 refl))
      (tick (λ h. cc))

Reach-Inv_example : Inv asked
Reach-Inv_example = Reach-Inv Reach-asked

-- The request of the interval finds the new scrape running; the next one, that it has ended.
abbrev ended : ScrapeStatus → Page
ended status = record {
  ui = on_poll 9000 status (on_poll 4000 (status_is running) connecting);
  checking = false;
  in_flight = 0;
  submissions = 0;
}

Reach-ended : (status : ScrapeStatus) → Reach opened (ended status)
unfolding runs
Reach-ended status =
    next (next (next Reach-asked (poll 4000 0 (status_is running) refl)) (tick (λ h. cc)))
      (poll 9000 0 status refl)

abbrev shots : Option (List String)
shots = some ("iVBOR" ∷ [])

reports_success : (render (ended (status_is success)).ui) ≡ all_set (we_found 4 true)
unfolding runs
reports_success = refl

reports_failure : (render (ended (status_is failure)).ui) ≡ connection_failed shots
unfolding runs
reports_failure = refl

-- A failure of an earlier scrape, seen twice before the new one has started.
on_submitted-stale_example : IsWaiting 1000 none (
    after_polls
      ((4000, status_is failure) ∷ (7000, status_is failure) ∷ [])
      (on_submitted 1000 mounted))
on_submitted-stale_example =
    on_submitted-stale 1000 mounted ((4000, status_is failure) ∷ (7000, status_is failure) ∷ [])
      (((λ h. cc), omega arith), (((λ h. cc), omega arith), tt))

is_connecting : connecting.step ≡ scraping
unfolding runs
is_connecting = refl

-- A stale success is taken for the result once the time limit is past.
on_poll_verdict_example :
    (((on_poll 300000 (status_is success) connecting).step ≡ succeeded)
      ↔ (((status_is success).status ≡ some success) × Accepts 300000 connecting))
    × (((on_poll 300000 (status_is success) connecting).step ≡ failed) ↔ (
        ((status_is success).status ≢ some success)
        × ((((status_is success).status ≡ some failure) × Accepts 300000 connecting)
            ⊎ (timeout_threshold < 300000 - connecting.scrape_start))))
    × Outcome connecting (on_poll 300000 (status_is success) connecting)
on_poll_verdict_example = on_poll_verdict 300000 (status_is success) connecting is_connecting

stale_success : (on_poll 300000 (status_is success) connecting).step ≡ succeeded
unfolding runs
stale_success = refl

is_early : 4000 - connecting.scrape_start ≤ timeout_threshold
unfolding runs
is_early = omega arith

abbrev shown_form : Onboarding
shown_form = show_form mounted

shows_form : shown_form.step ≡ form
unfolding runs
shows_form = refl

-- A poll is under way when the page is left, and its reply comes later.
abbrev answered : Page
answered = record {
  ui = on_poll 4000 (status_is running) (leave asked).ui;
  checking = false;
  in_flight = 0;
  submissions = 0;
}

Aftermath-answered : Aftermath (leave asked) answered
unfolding runs
Aftermath-answered = then_step left (poll 4000 0 (status_is running) refl) refl

leave-no_interval_example : answered.ui.intervals ≡ []
leave-no_interval_example = leave-no_interval Reach-asked refl refl Aftermath-answered

leave_leaks_example : (q : Page) × Aftermath (leave opened) q × (q.ui.intervals ≡ 0 ∷ [])
leave_leaks_example = leave_leaks 1000 (status_is running) here refl refl
