-- ===== src/Dashboard/Tests.antt =====
-- The dashboard on concrete dates: a text of digits is the date of so many milliseconds.
use starbies_schedule_sync.Base.{ℕ, ◌≡◌, refl, none, some, [], ◌∷◌, str_eq, if◌then◌else◌}
use starbies_schedule_sync.Base.Int.{ℤ, pos, negsuc}
use starbies_schedule_sync.Dashboard.{
  Dates, in_hours_minutes, relative, filter_upcoming, filter_past,
}
use starbies_schedule_sync.Fixtures.{morning, evening, week}

abbrev dates : Dates
dates text =
    if str_eq text "18" then some (pos 18) else if str_eq text "38" then some (pos 38) else none

abbrev noon : ℕ → ℤ
noon _ = pos 20

splits :
    (filter_upcoming dates noon 0 week.shifts ≡ evening ∷ [])
    × (filter_past dates noon 2 week.shifts ≡ morning ∷ [])
unfolding filter_upcoming filter_past
splits = (refl, refl)

says_hours : relative (some (negsuc 5459999)) ≡ in_hours_minutes 1 31
unfolding relative
says_hours = refl
