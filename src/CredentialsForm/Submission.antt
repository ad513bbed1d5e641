-- ===== src/CredentialsForm/Submission.antt =====
-- The submission of the form, whichever handler its page passes as `onSubmit`.
use starbies_schedule_sync.Base.{◌≡◌, none, some, arith}
use starbies_schedule_sync.Browser.{Result}
use starbies_schedule_sync.Api.Types.{CredentialsFormData}
use starbies_schedule_sync.CredentialsForm.{Form, form_data, start_submit, end_submit}

-- A submission takes the fields as they stand; while it is under way no other one starts; and
-- whether the page's handler fulfils or throws, the form then is as before, ready to submit again.
pub start_submit-end_submit {ℓ} :
    {A : Type ℓ} (f g : Form) (d : CredentialsFormData) (result : Result A)
    → start_submit f ≡ some (d, g)
    → (d ≡ form_data f) × (start_submit g ≡ none) × (end_submit result g ≡ f)
unfolding start_submit end_submit
start_submit-end_submit f g d result h = ground arith
