-- ===== src/ScrapeLogs/Tests.antt =====
-- Log rows on a parser that knows two arrays.
use starbies_schedule_sync.Base.{
  String, ◌≡◌, refl, Option, none, some, [], ◌∷◌, str_eq, if◌then◌else◌,
}
use starbies_schedule_sync.Base.Int.{ℤ, pos, negsuc}
use starbies_schedule_sync.ScrapeLogs.{
  Parsed, syntax_error, array, LogDetails, scrape_log_details, none_open, toggle_expand,
  round_seconds, toggle_of, hide_details, IdSet,
}
use starbies_schedule_sync.ScrapeLogs.Rows.{Row, row}
use starbies_schedule_sync.Fixtures.{one_log}

abbrev parse : String → Parsed
parse text =
    if str_eq text "[]"
    then array []
    else if str_eq text "[\"start\"]"
    then array ("start" ∷ [])
    else syntax_error

abbrev start_only : LogDetails
start_only = record { logs = some ("start" ∷ []); screenshots = none }

has_start : scrape_log_details parse one_log ≡ some start_only
unfolding scrape_log_details
has_start = refl

rounds : (round_seconds (pos 1500) ≡ pos 2) × (round_seconds (negsuc 1499) ≡ negsuc 0)
unfolding round_seconds
rounds = (refl, refl)

abbrev no_date : String → Option ℤ
no_date text = none

abbrev shown_row : IdSet → Row
shown_row open_logs = row (λ text. text) no_date parse open_logs one_log

opens_start : (shown_row (toggle_expand "l1" none_open)).toggle ≡ hide_details (some start_only)
unfolding row toggle_of toggle_expand scrape_log_details
opens_start = refl
