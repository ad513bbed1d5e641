-- ===== src/Onboarding/Card.antt =====
-- The rendering of web/src/pages/Onboarding.tsx, without its layout, and what it shows.
use starbies_schedule_sync.Base.{
  ℕ, String, ◌≡◌, ◌≢◌, ◌↔◌, refl, Bool, false, not, Option, none, some, List, [], arith, ◌==◌,
  if◌then◌else◌, or_else, length, ltb,
}
use starbies_schedule_sync.Api.Types.{success, failure, ScrapeStatus, CredentialsFormData}
use starbies_schedule_sync.Api.Endpoints.{options_of}
use starbies_schedule_sync.Onboarding.{
  OnboardingStep, Onboarding, loading, form, scraping, succeeded, failed, submission,
}
use starbies_schedule_sync.Onboarding.Machine.{Page, opened, Reach}
use starbies_schedule_sync.Onboarding.Invariant.{Shows, Reach-Inv}

-- The description of the success card: the number of shifts and whether the noun has its "s".
pub data Synced : Type 0 where
  we_found : ℕ → (plural : Bool) → Synced
  synced_successfully : Synced

pub data Card : Type 0 where
  loading_text : Card
  -- with "Taking longer than expected…" or without
  connecting : (slow : Bool) → Card
  all_set : Synced → Card
  -- with the sentence and the timeline for the screenshots, if there are any
  connection_failed : Option (List String) → Card
  -- titled "Update your credentials" or "Connect your Starbucks account"
  credentials_form : (update : Bool) → (error : String) → Card

describe : Option ℕ → Synced
describe none = synced_successfully
describe (some n) = we_found n (not (n == 1))

-- `scrapeResult?.failure_screenshots ?? []`
abbrev screenshots_of : Option ScrapeStatus → List String
screenshots_of none = []
screenshots_of (some r) = or_else r.failure_screenshots []

abbrev shifts_found_of : Option ScrapeStatus → Option ℕ
shifts_found_of none = none
shifts_found_of (some r) = r.shifts_found

card_of : OnboardingStep → Onboarding → Card
unfolding describe
card_of loading s = loading_text
card_of scraping s = connecting s.is_slow
card_of succeeded s = all_set (describe (shifts_found_of s.scrape_result))
card_of failed s =
    let shots = screenshots_of s.scrape_result in
    connection_failed (if ltb 0 (length shots) then some shots else none)
card_of form s = credentials_form s.is_retry s.error

unfoldable pub render : Onboarding → Card
unfolding card_of
render s = card_of s.step s

module _ (s : Onboarding) where
  failure_card :
      (o : Option ScrapeStatus) (shots : Option (List String))
      → s.scrape_result ≡ o
      → Shows s.step o s.reported
      → render s ≡ connection_failed shots
      → (r : ScrapeStatus) × (o ≡ some r)
        × (r.status ≡ some failure)
        × (or_else shots [] ≡ or_else r.failure_screenshots [])
        × (shots ≢ some [])
  unfolding render
  failure_card none shots e shown h = absurd (ground arith)
  failure_card (some r) shots e shown h = (r, refl, ground arith, ground (arith), ground arith)

  success_card :
      (o : Option ScrapeStatus) (n : ℕ) (plural : Bool)
      → s.scrape_result ≡ o
      → Shows s.step o s.reported
      → render s ≡ all_set (we_found n plural)
      → (r : ScrapeStatus) × (o ≡ some r)
        × (r.status ≡ some success)
        × (r.shifts_found ≡ some n)
        × ((plural ≡ false) ↔ (n ≡ 1))
  unfolding render
  success_card none n plural e shown h = absurd (ground arith)
  success_card (some r) n plural e shown h = (r, refl, ground arith, ground arith, ground arith)

-- In a reachable state, the failure card shows the screenshots of a result with status failure, and
-- it shows a timeline only if that result has a screenshot.
pub render-connection_failed :
    (p : Page) (shots : Option (List String))
    → Reach opened p
    → render p.ui ≡ connection_failed shots
    → (r : ScrapeStatus) × (p.ui.scrape_result ≡ some r)
      × (r.status ≡ some failure)
      × (or_else shots [] ≡ or_else r.failure_screenshots [])
      × (shots ≢ some [])
render-connection_failed p shots reach h =
    failure_card p.ui p.ui.scrape_result shots refl (Reach-Inv reach).shows h

-- In a reachable state, the success card counts the shifts of a result with status success, with
-- the singular for one shift alone.
pub render-we_found :
    (p : Page) (n : ℕ) (plural : Bool)
    → Reach opened p
    → render p.ui ≡ all_set (we_found n plural)
    → (r : ScrapeStatus) × (p.ui.scrape_result ≡ some r)
      × (r.status ≡ some success)
      × (r.shifts_found ≡ some n)
      × ((plural ≡ false) ↔ (n ≡ 1))
render-we_found p n plural reach h =
    success_card p.ui p.ui.scrape_result n plural refl (Reach-Inv reach).shows h

-- The form asks for an update exactly when its submission is a PUT; otherwise it is a POST.
pub render-submission :
    (s : Onboarding) (update : Bool) (error : String) (form_data : CredentialsFormData)
    → render s ≡ credentials_form update error
    → (options_of (submission s.is_retry form_data)).method
      ≡ some (if update then "PUT" else "POST")
unfolding render submission options_of
render-submission s update error form_data h = ground arith
