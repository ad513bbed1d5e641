-- ===== src/Onboarding/Leaving.antt =====
-- Leaving the page: the clean-up of its effect stops the polling, and replies still arrive.
-- React ignores what they set of the state then, which only the form and the buttons would read;
-- the refs and the intervals change as before.
use starbies_schedule_sync.Base.{ℕ, ◌≡◌, refl, Bool, true, false, none, some, [], ◌∷◌, arith}
use starbies_schedule_sync.Api.Types.{running, ScrapeStatus}
use starbies_schedule_sync.Onboarding.{
  stop_polling, on_mount_status, show_form, on_poll, on_submitted, on_submit_error,
}
use starbies_schedule_sync.Onboarding.Machine.{
  Page, opened, Step, mount_status, mount_error, tick, poll, poll_error, submit, submitted,
  submit_error, retry, Reach,
}
use starbies_schedule_sync.Onboarding.Invariant.{Inv, Reach-Inv}

unfoldable pub leave : Page → Page
unfolding stop_polling
leave p = record p { ui = stop_polling p.ui }

-- The steps that need the rendered page.
abbrev pub needs_page : {p q : Page} → Step p q → Bool
needs_page (submit h) = true
needs_page (retry h) = true
needs_page _ = false

-- What can happen after the page was left.
pub data Aftermath (p : Page) : Page → Type 0 where
  left : Aftermath p p
  then_step : {q r : Page} → Aftermath p q → (st : Step q r) → needs_page st ≡ false → Aftermath p r

record Quiet (p : Page) : Type 0 where
  no_intervals : p.ui.intervals ≡ []
  no_ref : p.ui.poll_ref ≡ none
  checked : p.checking ≡ false
  no_submissions : p.submissions ≡ 0

leave-Quiet : {p : Page} → Inv p → p.checking ≡ false → p.submissions ≡ 0 → Quiet (leave p)
unfolding leave
leave-Quiet inv h k = ground arith

Step-Quiet : {p q : Page} (st : Step p q) → needs_page st ≡ false → Quiet p → Quiet q
unfolding on_mount_status show_form on_poll on_submitted on_submit_error
Step-Quiet (mount_status now status h) n quiet = ground arith
Step-Quiet (mount_error h) n quiet = ground arith
Step-Quiet (tick h) n quiet = ground arith
Step-Quiet (poll now k status h) n quiet = ground arith
Step-Quiet (poll_error k h) n quiet = ground arith
Step-Quiet (submit h) n quiet = ground arith
Step-Quiet (submitted now k h) n quiet = ground arith
Step-Quiet (submit_error e k h) n quiet = ground arith
Step-Quiet (retry h) n quiet = ground arith

Aftermath-Quiet : {p q : Page} → Aftermath p q → Quiet p → Quiet q
Aftermath-Quiet left quiet = quiet
Aftermath-Quiet (then_step a st n) quiet = Step-Quiet st n (Aftermath-Quiet a quiet)

-- If the page is left when neither its first request nor a submission is under way, then whatever
-- polls still are, no interval is left, and none is ever started again.
pub leave-no_interval :
    {p q : Page}
    → Reach opened p
    → p.checking ≡ false
    → p.submissions ≡ 0
    → Aftermath (leave p) q
    → q.ui.intervals ≡ []
leave-no_interval reach h k after =
    (Aftermath-Quiet after (leave-Quiet (Reach-Inv reach) h k)).no_intervals

-- Whenever the page is left before its first request settles, and this then says that a scrape is
-- running, an interval is started after the clean-up.
pub leave_leaks :
    {p : Page} (now : ℕ) (status : ScrapeStatus)
    → Reach opened p
    → p.checking ≡ true
    → status.status ≡ some running
    → (q : Page) × Aftermath (leave p) q × (q.ui.intervals ≡ p.ui.next_interval ∷ [])
unfolding leave on_mount_status
leave_leaks {p} now status reach h r =
    let inv = Reach-Inv reach in (_, then_step left (mount_status now status h) refl, ground arith)
