-- ===== src/Server/Calendar/RoundTrip.antt =====
-- What a reader finds in the calendar that `GenerateICS` writes.
use starbies_schedule_sync.Base.{
  ℕ, suc, ◌≡◌, refl, ap, ◌∙◌, Bool, true, false, not, Bool-cases, inl, inr, none, some, List, [],
  ◌∷◌, ◌++◌, All, map, if◌then◌else◌, codes, arith,
}
use starbies_schedule_sync.Base.Int.{ℤ, pos, ltb_ℤ}
use starbies_schedule_sync.Scraper.Schedule.{Decimal}
use starbies_schedule_sync.Server.Calendar.{
  Line, Shift, Text, backslash, escape_ics, event, events, generate_ics, is_empty, line_feed,
  line_if, uid,
}
use starbies_schedule_sync.Server.Calendar.Escapes.{
  has, has-append, has-escape_ics, unescape, unescape-escape_ics,
}
use starbies_schedule_sync.Server.Calendar.Reader.{
  IsClean, Vevent, no_vevent, read_calendar, read_line, read_lines, split_lines-write,
}

unescape-has : (s : Text) → has backslash s ≡ false → unescape false s ≡ s
unfolding unescape
unescape-has [] h = refl
unescape-has (c ∷ s) h = ground (arith, unescape-has s)

abbrev named : List Line → List (Text × Text)
named = map (λ ((name, value) : Line). (codes name, value))

-- The id is the same text unescaped, and stays in its line.
abbrev pub HasCleanId : Shift → Type 0
HasCleanId sh = (has line_feed (uid sh) ≡ false) × (has backslash (uid sh) ≡ false)

abbrev pub net : (Decimal → Text) → Shift → Text
net format_hours sh = codes "Net hours: " ++ format_hours sh.net_hours

-- A shift as a client of the calendar sees it.
abbrev pub vevent_of : (ℤ → Text) → (Decimal → Text) → Shift → Vevent
vevent_of format_time format_hours sh = record {
  uid = uid sh;
  dtstart = format_time sh.start_time;
  dtend = format_time sh.end_time;
  summary = sh.job_name;
  location = if is_empty sh.location then none else some sh.location;
  description = if ltb_ℤ (pos 0) sh.net_hours.digits then some (net format_hours sh) else none;
}

module _ (format_time : ℤ → Text) (format_hours : Decimal → Text) (clock : ℕ → ℤ)
    (times : (t : ℤ) → has line_feed (format_time t) ≡ false)
    (hours : (d : Decimal)
      → (has line_feed (format_hours d) ≡ false) × (has backslash (format_hours d) ≡ false)) where
  read_lines-event :
      (n : ℕ) (sh : Shift) (rest : List Line) (e : Vevent)
      → has backslash (uid sh) ≡ false
      → read_lines (named (event format_time format_hours clock n sh rest)) e
        ≡ vevent_of format_time format_hours sh
          ∷ read_lines (named rest) (vevent_of format_time format_hours sh)
  unfolding read_lines event codes
  read_lines-event n sh rest e h =
      let id = unescape-has (uid sh) h in
      let job = unescape-escape_ics sh.job_name in
      let place = unescape-escape_ics sh.location in
      let text = unescape-has (net format_hours sh) (
        has-append backslash (codes "Net hours: ") (format_hours sh.net_hours) refl
          (hours sh.net_hours).1) in
      elim (Bool-cases (is_empty sh.location)) [
        | inl l ↦ elim (Bool-cases (ltb_ℤ (pos 0) sh.net_hours.digits)) [
          | inl k ↦ rw (l, k, id, job, text) refl
          | inr k ↦ rw (l, k, id, job) refl
        ]
        | inr l ↦ elim (Bool-cases (ltb_ℤ (pos 0) sh.net_hours.digits)) [
          | inl k ↦ rw (l, k, id, job, place, text) refl
          | inr k ↦ rw (l, k, id, job, place) refl
        ]
      ]

  line_if-IsClean :
      (test : Bool) (line : Line) (lines : List Line)
      → IsClean line
      → All IsClean lines
      → All IsClean (line_if test line lines)
  line_if-IsClean true line lines h a = (h, a)
  line_if-IsClean false line lines h a = a

  event-IsClean :
      (n : ℕ) (sh : Shift) (rest : List Line)
      → has line_feed (uid sh) ≡ false
      → All IsClean rest
      → All IsClean (event format_time format_hours clock n sh rest)
  unfolding event codes
  event-IsClean n sh rest h a =
      let text =
        has-append line_feed (codes "Net hours: ") (format_hours sh.net_hours) refl
          (hours sh.net_hours).0 in
      let rest' = ("DTSTAMP", format_time (clock n)) ∷ ("END", codes "VEVENT") ∷ rest in
      let positive = ltb_ℤ (pos 0) sh.net_hours.digits in
      let described =
        line_if-IsClean positive ("DESCRIPTION", net format_hours sh) rest' (refl, refl, text)
          ((refl, refl, times (clock n)), ((refl, refl, refl), a)) in
      let placed =
        line_if-IsClean (not (is_empty sh.location)) ("LOCATION", escape_ics sh.location)
          (line_if positive ("DESCRIPTION", net format_hours sh) rest')
          (refl, refl, has-escape_ics sh.location) described in
      (
        (refl, refl, refl),
        (
          (refl, refl, h),
          (
            (refl, refl, times sh.start_time),
            ((refl, refl, times sh.end_time), ((refl, refl, has-escape_ics sh.job_name), placed)),
          ),
        ),
      )

  events-IsClean :
      (n : ℕ) (shifts : List Shift)
      → All HasCleanId shifts
      → All IsClean (events format_time format_hours clock n shifts)
  unfolding events codes
  events-IsClean n [] a = ((refl, refl, refl), tt)
  events-IsClean n (sh ∷ shifts) a =
      event-IsClean n sh (events format_time format_hours clock (suc n) shifts) (a.0.0)
        (events-IsClean (suc n) shifts (a.1))

  read_lines-append :
      (ls : List (Text × Text)) (e : Vevent) → read_lines (ls ++ ([], []) ∷ []) e ≡ read_lines ls e
  unfolding read_lines codes
  read_lines-append [] e = refl
  read_lines-append (l ∷ ls) e =
      let (e', done) = read_line l e in ap (λ es. done ++ es) (read_lines-append ls e')

  read_lines-events :
      (n : ℕ) (shifts : List Shift) (e : Vevent)
      → All HasCleanId shifts
      → read_lines (named (events format_time format_hours clock n shifts)) e
        ≡ map (vevent_of format_time format_hours) shifts
  unfolding events read_lines codes
  read_lines-events n [] e a = refl
  read_lines-events n (sh ∷ shifts) e a =
      let v = vevent_of format_time format_hours sh in
      read_lines-event n sh (events format_time format_hours clock (suc n) shifts) e (a.0.1)
      ∙ ap (λ es. v ∷ es) (read_lines-events (suc n) shifts v (a.1))

-- A client that reads the calendar by RFC 5545, as Server/Calendar/Reader.antt does, finds exactly the
-- shifts, in their order, whatever the names of jobs and places contain: each with its id, times, job,
-- with its place where it has one, and its hours where they are positive. Times and hours are written
-- without line breaks, and the hours without a backslash; the ids are free of line feeds and of
-- backslashes, since `GenerateICS` writes them unescaped.
pub read_calendar-generate_ics :
    (format_time : ℤ → Text) (format_hours : Decimal → Text) (clock : ℕ → ℤ) (shifts : List Shift)
    → ((t : ℤ) → has line_feed (format_time t) ≡ false)
    → ((d : Decimal)
        → (has line_feed (format_hours d) ≡ false) × (has backslash (format_hours d) ≡ false))
    → All HasCleanId shifts
    → read_calendar (generate_ics format_time format_hours clock shifts)
      ≡ map (vevent_of format_time format_hours) shifts
unfolding read_calendar generate_ics read_lines codes
read_calendar-generate_ics format_time format_hours clock shifts times hours ids =
    let clean = events-IsClean format_time format_hours clock times hours 0 shifts ids in
    let lines = events format_time format_hours clock 0 shifts in
    ap (λ ls. read_lines ls no_vevent) (split_lines-write lines clean)
    ∙ read_lines-append format_time format_hours clock times hours (named lines) no_vevent
    ∙ read_lines-events format_time format_hours clock times hours 0 shifts no_vevent ids
