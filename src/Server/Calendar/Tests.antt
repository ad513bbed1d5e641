-- ===== src/Server/Calendar/Tests.antt =====
-- A user with three shifts, and the calendar that is served for them.
use starbies_schedule_sync.Base.{
  ℕ, ◌+◌, ◌*◌, ◌≡◌, ◌↔◌, refl, inl, inr, String, true, false, none, some, List, [], ◌∷◌, ◌++◌, Has,
  codes, map, All,
}
use starbies_schedule_sync.Base.Int.{ℤ, pos, ltb_ℤ}
use starbies_schedule_sync.Scraper.Schedule.{Decimal}
use starbies_schedule_sync.Server.Tables.{select}
use starbies_schedule_sync.Server.Accounts.{User}
use starbies_schedule_sync.Server.Calendar.{
  Shift, Text, backslash, line_feed, is_empty, escape_ics, generate_ics,
}
use starbies_schedule_sync.Server.Calendar.Escapes.{has}
use starbies_schedule_sync.Server.Calendar.Reader.{read_calendar}
use starbies_schedule_sync.Server.Calendar.RoundTrip.{
  HasCleanId, read_calendar-generate_ics, vevent_of,
}
use starbies_schedule_sync.Server.Calendar.Feed.{
  base_url, get_ics_url, get_schedule, query_user_shifts, serve_ics, week_before, has_ics_token,
}
use starbies_schedule_sync.Server.Calendar.Feed.Order.{IsAscending, query_user_shifts_lem}
use starbies_schedule_sync.Server.Calendar.Feed.Serving.{serve_ics-get_ics_url}

abbrev format_time : ℤ → Text
format_time t = codes "20260101T000000Z"

abbrev format_hours : Decimal → Text
format_hours d = codes "7.50"

abbrev day : ℕ
day = 24 * 3600

abbrev now : ℕ
now = 100 * day

abbrev clock : ℕ → ℤ
clock n = pos (now + n)

abbrev shift : String → String → Text → ℕ → Shift
shift user_id id location start = record {
  id = codes "row";
  user_id = user_id;
  shift_id_ext = codes id;
  job_name = codes "Barista; trainer, 2\nlate";
  location = location;
  start_time = pos start;
  end_time = pos (start + 8 * 3600);
  net_hours = record { digits = pos 75; scale = 1 };
  created_at = pos 0;
}

abbrev tomorrow : Shift
tomorrow = shift "u1" "s2" (codes "5th \\ Main") (101 * day)

abbrev today : Shift
today = shift "u1" "" [] (100 * day)

abbrev rows : List Shift
rows = tomorrow ∷ shift "u2" "s3" [] (100 * day) ∷ shift "u1" "s1" [] (90 * day) ∷ today ∷ []

abbrev shown : List Shift
shown = today ∷ tomorrow ∷ []

shows : query_user_shifts now "u1" rows ≡ shown
unfolding query_user_shifts codes
shows = refl

abbrev ada : User
ada = record {
  id = "u1";
  email = "ada@x.org";
  is_admin = false;
  timezone = "America/Chicago";
  ics_token = "c1";
  created_at = 0;
  updated_at = 0;
}

lines_escaped : escape_ics (codes "a;b,c\\d\ne") ≡ codes "a\\;b\\,c\\\\d\\ne"
unfolding escape_ics codes
lines_escaped = refl

ids_clean : (sh : Shift) → Has sh rows → HasCleanId sh
unfolding codes
ids_clean sh (inl same) = rw same (refl, refl)
ids_clean sh (inr (inl same)) = rw same (refl, refl)
ids_clean sh (inr (inr (inl same))) = rw same (refl, refl)
ids_clean sh (inr (inr (inr (inl same)))) = rw same (refl, refl)
ids_clean sh (inr (inr (inr (inr h)))) = absurd h

times_clean : (t : ℤ) → has line_feed (format_time t) ≡ false
unfolding codes
times_clean t = refl

hours_clean :
    (d : Decimal)
    → (has line_feed (format_hours d) ≡ false) × (has backslash (format_hours d) ≡ false)
unfolding codes
hours_clean d = (refl, refl)

shown_clean : All HasCleanId shown
unfolding codes
shown_clean = ((refl, refl), ((refl, refl), tt))

read_calendar-generate_ics_example :
    read_calendar (generate_ics format_time format_hours clock shown)
    ≡ map (vevent_of format_time format_hours) shown
read_calendar-generate_ics_example =
    read_calendar-generate_ics format_time format_hours clock shown times_clean hours_clean
      shown_clean

query_user_shifts_lem_example :
    ((sh : Shift)
      → Has sh (query_user_shifts now "u1" rows)
        ↔ (Has sh rows × (sh.user_id ≡ "u1") × (ltb_ℤ (week_before now) sh.end_time ≡ true)))
    × IsAscending (query_user_shifts now "u1" rows)
query_user_shifts_lem_example = query_user_shifts_lem now "u1" rows

has_token : is_empty (codes ada.ics_token) ≡ false
unfolding codes
has_token = refl

found_by_token : select (has_ics_token (codes ada.ics_token)) (ada ∷ []) ≡ some ada
unfolding select codes
found_by_token = refl

serve_ics-get_ics_url_example :
    (icsfile doc : Text) × (get_ics_url (codes "https://x.org") ada
      ≡ base_url (codes "https://x.org") ++ (codes "/cal/" ++ icsfile))
    × (serve_ics format_time format_hours clock now icsfile (ada ∷ []) rows ≡ some doc)
    × (read_calendar doc
        ≡ map (vevent_of format_time format_hours) (get_schedule now ada (λ id. none) rows).shifts)
serve_ics-get_ics_url_example =
    serve_ics-get_ics_url format_time format_hours clock (codes "https://x.org") now ada (ada ∷ [])
      rows (λ id. none) times_clean hours_clean ids_clean has_token found_by_token
