-- ===== src/Server/Calendar/Feed/Serving.antt =====
-- The calendar at the URL that a user is given.
use starbies_schedule_sync.Base.{
  ℕ, suc, ◌≡◌, refl, ap, String, true, false, Bool-cases, inl, inr, Option, some, List, [], ◌∷◌,
  ◌++◌, All, Has, map, length, length-append, codes, arith,
}
use starbies_schedule_sync.Base.Int.{ℤ}
use starbies_schedule_sync.Scraper.Schedule.{Decimal}
use starbies_schedule_sync.Server.Tables.{select}
use starbies_schedule_sync.Server.Accounts.{User}
use starbies_schedule_sync.Server.Calendar.{
  Shift, Text, backslash, is_empty, line_feed, text_eq, generate_ics,
}
use starbies_schedule_sync.Server.Calendar.Escapes.{has}
use starbies_schedule_sync.Server.Calendar.Reader.{read_calendar}
use starbies_schedule_sync.Server.Calendar.RoundTrip.{
  HasCleanId, read_calendar-generate_ics, vevent_of,
}
use starbies_schedule_sync.Server.Calendar.Feed.{
  base_url, get_ics_url, get_schedule, has_ics_token, query_user_shifts, serve_ics, trim_suffix,
}
use starbies_schedule_sync.Server.Calendar.Feed.Order.{query_user_shifts_lem}

text_eq-length : (s t : Text) → text_eq s t ≡ true → length s ≡ length t
text_eq-length [] [] h = refl
text_eq-length [] (d ∷ t) h = absurd cc
text_eq-length (c ∷ s) [] h = absurd cc
text_eq-length (c ∷ s) (d ∷ t) h = ap (λ n. suc n) (text_eq-length s t (ground arith))

text_eq-longer : (c : ℕ) (s t : Text) → text_eq (c ∷ (s ++ t)) t ≡ false
text_eq-longer c s t = elim (Bool-cases (text_eq (c ∷ (s ++ t)) t)) [
  | inl e ↦ absurd (omega (arith, text_eq-length (c ∷ (s ++ t)) t e, length-append s t))
  | inr e ↦ e
]

trim_suffix-append : (s : Text) → trim_suffix (s ++ codes ".ics") ≡ s
unfolding trim_suffix codes
trim_suffix-append [] = refl
trim_suffix-append (c ∷ s) =
    rw (text_eq-longer c s (codes ".ics")) (ap (λ t. c ∷ t) (trim_suffix-append s))

All-of_Has :
    (P : Shift → Type 0) (shs : List Shift) → ((sh : Shift) → Has sh shs → P sh) → All P shs
All-of_Has P [] h = tt
All-of_Has P (sh ∷ shs) h = (h sh (inl refl), All-of_Has P shs (λ t k. h t (inr k)))

-- The URL that a user is given leads to a file that the server serves, where the token is not empty
-- and finds the user; and a client that reads it by RFC 5545, as Server/Calendar/Reader.antt does,
-- finds exactly the shifts that the user's schedule shows at that time, in their order. Times and
-- hours are written without line breaks, and the hours without a backslash; the ids of shifts are
-- free of line feeds and of backslashes.
pub serve_ics-get_ics_url :
    (format_time : ℤ → Text) (format_hours : Decimal → Text) (clock : ℕ → ℤ) (env : Text) (now : ℕ)
    (u : User) (users : List User) (shifts : List Shift)
    (scrape_schedule : String → Option (ℕ × Option ℕ))
    → ((t : ℤ) → has line_feed (format_time t) ≡ false)
    → ((d : Decimal)
        → (has line_feed (format_hours d) ≡ false) × (has backslash (format_hours d) ≡ false))
    → ((sh : Shift) → Has sh shifts → HasCleanId sh)
    → is_empty (codes u.ics_token) ≡ false
    → select (has_ics_token (codes u.ics_token)) users ≡ some u
    → (icsfile doc : Text) × (get_ics_url env u ≡ base_url env ++ (codes "/cal/" ++ icsfile))
      × (serve_ics format_time format_hours clock now icsfile users shifts ≡ some doc)
      × (read_calendar doc
          ≡ map
              (vevent_of format_time format_hours)
              (get_schedule now u scrape_schedule shifts).shifts)
unfolding get_ics_url serve_ics get_schedule
serve_ics-get_ics_url format_time format_hours clock env now u users shifts scrape_schedule times
      hours ids nonempty found =
    let icsfile = codes u.ics_token ++ codes ".ics" in
    let shown = query_user_shifts now u.id shifts in
    let queried = (query_user_shifts_lem now u.id shifts).0 in
    let clean = All-of_Has HasCleanId shown (λ sh h. ids sh ((queried sh).0 h).0) in
    (
      icsfile,
      generate_ics format_time format_hours clock shown,
      refl,
      rw (trim_suffix-append (codes u.ics_token), nonempty, found) refl,
      read_calendar-generate_ics format_time format_hours clock shown times hours clean,
    )
