-- ===== src/Onboarding/Machine.antt =====
-- The page in its environment: which requests are under way, and what may happen next. Requests of
-- the interval overlap, since its callback does not wait for the one before.
use starbies_schedule_sync.Base.{ℕ, suc, ◌≡◌, ◌≢◌, Bool, true, false, []}
use starbies_schedule_sync.Browser.{Thrown}
use starbies_schedule_sync.Api.Types.{ScrapeStatus}
use starbies_schedule_sync.Onboarding.{
  Onboarding, form, failed, mounted, on_mount_status, show_form, on_poll, on_submit, on_submitted,
  on_submit_error, handle_retry,
}

pub record Page : Type 0 where
  pub ui : Onboarding
  -- the request of the effect on mount
  pub checking : Bool
  -- requests of the interval's callback
  pub in_flight : ℕ
  -- requests of `handleSubmit`
  pub submissions : ℕ

abbrev pub opened : Page
opened = record { ui = mounted; checking = true; in_flight = 0; submissions = 0 }

-- The form may submit whenever it is shown, and the button of the failure card may be pressed
-- whenever that card is. The times at which replies are handled are arbitrary.
pub data Step (p : Page) : Page → Type 0 where
  mount_status :
      (now : ℕ) (status : ScrapeStatus)
      → p.checking ≡ true
      → Step p (record p { ui = on_mount_status now status p.ui; checking = false })
  mount_error : p.checking ≡ true → Step p (record p { ui = show_form p.ui; checking = false })
  tick : p.ui.intervals ≢ [] → Step p (record p { in_flight = suc p.in_flight })
  poll :
      (now n : ℕ) (status : ScrapeStatus)
      → p.in_flight ≡ suc n
      → Step p (record p { ui = on_poll now status p.ui; in_flight = n })
  poll_error : (n : ℕ) → p.in_flight ≡ suc n → Step p (record p { in_flight = n })
  submit :
      p.ui.step ≡ form → Step p (record p { ui = on_submit p.ui; submissions = suc p.submissions })
  submitted :
      (now n : ℕ)
      → p.submissions ≡ suc n
      → Step p (record p { ui = on_submitted now p.ui; submissions = n })
  submit_error :
      (e : Thrown) (n : ℕ)
      → p.submissions ≡ suc n
      → Step p (record p { ui = on_submit_error e p.ui; submissions = n })
  retry : p.ui.step ≡ failed → Step p (record p { ui = handle_retry p.ui })

pub data Reach (p : Page) : Page → Type 0 where
  here : Reach p p
  next : {q r : Page} → Reach p q → Step q r → Reach p r
