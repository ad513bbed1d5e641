-- ===== src/Onboarding/Invariant.antt =====
-- What holds of the page in every reachable state.
use starbies_schedule_sync.Base.{
  ℕ, ◌≡◌, Bool, true, false, Option, none, some, List, [], ◌∷◌, arith, is_some,
}
use starbies_schedule_sync.Api.Types.{success, failure, ScrapeStatus}
use starbies_schedule_sync.Onboarding.{
  OnboardingStep, loading, scraping, succeeded, failed, on_mount_status, show_form, on_poll,
  on_submit, on_submitted, on_submit_error, handle_retry,
}
use starbies_schedule_sync.Onboarding.Machine.{
  Page, opened, Step, mount_status, mount_error, tick, poll, poll_error, submit, submitted,
  submit_error, retry, Reach, here, next,
}

abbrev pub is_scraping : OnboardingStep → Bool
is_scraping scraping = true
is_scraping _ = false

abbrev pub is_loading : OnboardingStep → Bool
is_loading loading = true
is_loading _ = false

abbrev pub kept : Option ℕ → List ℕ
kept none = []
kept (some id) = id ∷ []

-- The result that goes with the card of a step.
abbrev pub Shows : OnboardingStep → Option ScrapeStatus → Bool → Type 0
Shows succeeded (some r) reported = (r.status ≡ some success) × (reported ≡ true)
Shows succeeded none reported = ⊥
Shows failed (some r) reported = r.status ≡ some failure
Shows failed none reported = ⊥
Shows _ _ reported = Unit

pub record Inv (p : Page) : Type 0 where
  -- the browser keeps the interval of `pollRef` and no other
  pub no_leak : p.ui.intervals ≡ kept p.ui.poll_ref
  -- the page polls exactly while it shows that it is connecting
  pub polls : is_some p.ui.poll_ref ≡ is_scraping p.ui.step
  pub awaits : p.ui.awaiting_new_scrape ≡ true → p.ui.step ≡ scraping
  pub shows : Shows p.ui.step p.ui.scrape_result p.ui.reported
  -- "Loading…" is shown exactly until the request on mount settles, and nothing else runs then
  pub loads : is_loading p.ui.step ≡ p.checking
  pub quiet : p.checking ≡ true → (p.in_flight ≡ 0) × (p.submissions ≡ 0)

opened-Inv : Inv opened
opened-Inv = ground arith

-- Every step of the page keeps the invariant.
Step-Inv : {p q : Page} → Step p q → Inv p → Inv q
unfolding on_mount_status show_form on_poll on_submit on_submitted on_submit_error handle_retry
Step-Inv (mount_status now status h) inv = ground arith
Step-Inv (mount_error h) inv = ground arith
Step-Inv (tick h) inv = ground arith
Step-Inv (poll now n status h) inv = ground arith
Step-Inv (poll_error n h) inv = ground arith
Step-Inv (submit h) inv = ground arith
Step-Inv (submitted now n h) inv = ground arith
Step-Inv (submit_error e n h) inv = ground arith
Step-Inv (retry h) inv = ground arith

-- In every state that the page can reach: the browser keeps exactly the interval that the page
-- remembers; it polls exactly while it shows that it is connecting; it waits for a new scrape only
-- then; a success card has a result with status success and the app was told, a failure card has a
-- result with status failure; and the page is loading exactly until its first request settles.
pub Reach-Inv : {p : Page} → Reach opened p → Inv p
Reach-Inv here = opened-Inv
Reach-Inv (next r st) = Step-Inv st (Reach-Inv r)
