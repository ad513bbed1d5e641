-- ===== src/Server/Calendar.antt =====
-- The calendar feed: internal/calendar/ics.go, `queryUserShifts` of cmd/app/crypto_helpers.go,
-- `serveICS` of cmd/app/handlers_calendar.go, and `getSchedule` and `getICSURL` of
-- cmd/app/handlers_credentials.go. A text that the code walks is the list of its code points. How
-- Go writes a time and the hours are parameters, times are seconds since 1970, and SQLite's order of
-- shifts that start together is that of the table.
pub mod Escapes
pub mod Reader
pub mod RoundTrip
pub mod Feed
mod Tests
use starbies_schedule_sync.Base.{
  ℕ, suc, ◌==◌, ltb, String, Bool, true, false, ◌&&◌, not, Option, none, some, List, [], ◌∷◌, ◌++◌,
  map, if◌then◌else◌, str_eq, codes,
}
use starbies_schedule_sync.Base.Int.{ℤ, pos, ◌-ℤ◌, ltb_ℤ, leb_ℤ}
use starbies_schedule_sync.Scraper.Schedule.{Decimal}
use starbies_schedule_sync.Server.Tables.{select}
use starbies_schedule_sync.Server.Accounts.{User, unix}

abbrev pub Text : Type 0
Text = List ℕ

abbrev pub text_eq : Text → Text → Bool
text_eq [] [] = true
text_eq (c ∷ s) (d ∷ t) = c == d && text_eq s t
text_eq _ _ = false

abbrev pub is_empty : Text → Bool
is_empty [] = true
is_empty _ = false

-- `strings.ReplaceAll` for a single character.
unfoldable pub replace_all : ℕ → Text → Text → Text
replace_all old new [] = []
replace_all old new (c ∷ s) = (if c == old then new else c ∷ []) ++ replace_all old new s

abbrev pub backslash : ℕ
backslash = 92

abbrev pub semicolon : ℕ
semicolon = 59

abbrev pub comma : ℕ
comma = 44

abbrev pub line_feed : ℕ
line_feed = 10

abbrev pub carriage_return : ℕ
carriage_return = 13

abbrev pub colon : ℕ
colon = 58

-- The letter n
abbrev pub letter_n : ℕ
letter_n = 110

unfoldable pub escape_ics : Text → Text
unfolding replace_all
escape_ics s = replace_all line_feed (backslash ∷ letter_n ∷ []) (
    replace_all comma (backslash ∷ comma ∷ []) (
      replace_all semicolon (backslash ∷ semicolon ∷ [])
        (replace_all backslash (backslash ∷ backslash ∷ []) s)))

-- `models.Shift`
pub record Shift : Type 0 where
  pub id : Text
  pub user_id : String
  pub shift_id_ext : Text
  pub job_name : Text
  pub location : Text
  pub start_time : ℤ
  pub end_time : ℤ
  pub net_hours : Decimal
  pub created_at : ℤ

abbrev pub uid : Shift → Text
uid sh = (if is_empty sh.shift_id_ext then sh.id else sh.shift_id_ext) ++ codes "@sbuxsync"

-- A line: a name and its value.
abbrev pub Line : Type 0
Line = String × Text

-- What `WriteString` makes of lines.
unfoldable pub write : List Line → Text
unfolding codes
write [] = []
write ((name, value) ∷ lines) =
    codes name ++ colon ∷ (value ++ carriage_return ∷ line_feed ∷ write lines)

abbrev pub line_if : Bool → Line → List Line → List Line
line_if test line lines = if test then line ∷ lines else lines

module _ (format_time : ℤ → Text) (format_hours : Decimal → Text) (clock : ℕ → ℤ) where
  -- What the loop writes for a shift. Each time it reads the clock anew: `clock n` is its n-th reading.
  unfoldable pub event : ℕ → Shift → List Line → List Line
  unfolding codes escape_ics
  event n sh rest =
      ("BEGIN", codes "VEVENT")
      ∷ ("UID", uid sh)
      ∷ ("DTSTART", format_time sh.start_time)
      ∷ ("DTEND", format_time sh.end_time)
      ∷ ("SUMMARY", escape_ics sh.job_name)
      ∷ line_if (not (is_empty sh.location)) ("LOCATION", escape_ics sh.location)
          (line_if (ltb_ℤ (pos 0) sh.net_hours.digits)
            ("DESCRIPTION", codes "Net hours: " ++ format_hours sh.net_hours)
            (("DTSTAMP", format_time (clock n)) ∷ ("END", codes "VEVENT") ∷ rest))

  unfoldable pub events : ℕ → List Shift → List Line
  unfolding event codes
  events n [] = ("END", codes "VCALENDAR") ∷ []
  events n (sh ∷ shifts) = event n sh (events (suc n) shifts)

  unfoldable pub generate_ics : List Shift → Text
  unfolding write events codes
  generate_ics shifts = write (
      ("BEGIN", codes "VCALENDAR")
      ∷ ("VERSION", codes "2.0")
      ∷ ("PRODID", codes "-//sbuxsync//Partner Schedule//EN")
      ∷ ("CALSCALE", codes "GREGORIAN")
      ∷ ("METHOD", codes "PUBLISH")
      ∷ ("X-WR-CALNAME", codes "Starbucks Schedule")
      ∷ ("X-WR-TIMEZONE", codes "UTC")
      ∷ events 0 shifts)
