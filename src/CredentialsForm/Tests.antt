-- ===== src/CredentialsForm/Tests.antt =====
-- A run of the form.
use starbies_schedule_sync.Base.{◌≡◌, refl, [], ◌∷◌}
use starbies_schedule_sync.CredentialsForm.{remove, add, handle, run, mount, no_defaults}

keeps_last :
    (run (mount no_defaults) (remove 0 ∷ add ∷ remove 0 ∷ remove 0 ∷ [])).questions
    ≡ (mount no_defaults).questions
unfolding run handle mount
keeps_last = refl
