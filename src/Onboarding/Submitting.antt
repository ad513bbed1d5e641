-- ===== src/Onboarding/Submitting.antt =====
-- `handleSubmit` of web/src/pages/Onboarding.tsx with its request, from the press of the button to
-- the state in which its promise settles, when nothing else happens in between.
use starbies_schedule_sync.Base.{ℕ, ◌≡◌, true, false, arith, is_some}
use starbies_schedule_sync.Browser.{Browser, Result, ok, err}
use starbies_schedule_sync.Api.Types.{CredentialsFormData}
use starbies_schedule_sync.Api.Endpoints.{Network, api}
use starbies_schedule_sync.Api.Answers.{answer_to, value_of, api-answer}
use starbies_schedule_sync.Onboarding.{
  Onboarding, scraping, form, on_submit, submission, on_submitted, on_submit_error,
}

-- The state, and whether the promise is rejected, so that the form hears of it.
settle {ℓ} : {A : Type ℓ} → ℕ → Onboarding → Result A → Onboarding × Result (Unit {0})
settle now s (ok _) = (on_submitted now s, ok tt)
settle now s (err e) = (on_submit_error e s, err e)

unfoldable pub handle_submit :
    Network → ℕ → CredentialsFormData → Browser → Onboarding → Onboarding × Result (Unit {0})
unfolding settle on_submit on_submitted on_submit_error
handle_submit net now form_data b s =
    settle now (on_submit s) (api net (submission s.is_retry form_data) b).0

-- From the form, the page goes on to connect exactly if the server answers the request, a PUT after
-- a failed attempt and a POST otherwise; it then polls and waits for a new scrape, with no error.
-- If the server does not answer, the form stays, and the promise is rejected.
pub handle_submit_lem :
    (net : Network) (now : ℕ) (d : CredentialsFormData) (b : Browser) (s : Onboarding)
    → s.step ≡ form
    → let (t, outcome) = handle_submit net now d b s in
      let answered = is_some (answer_to net (submission s.is_retry d)) in
      (is_some (value_of outcome) ≡ answered)
      × (answered ≡ true
          → (t.step ≡ scraping)
            × (t.error ≡ "")
            × (t.awaiting_new_scrape ≡ true)
            × (is_some t.poll_ref ≡ true))
      × (answered ≡ false → (t.step ≡ form) × (t.poll_ref ≡ s.poll_ref))
unfolding handle_submit
handle_submit_lem net now d b s h = ground (arith, api-answer net (submission s.is_retry d) b)
