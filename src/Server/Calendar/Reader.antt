-- ===== src/Server/Calendar/Reader.antt =====
-- A reader of calendars after RFC 5545, which knows nothing of how they are written: lines that end
-- with a carriage return and a line feed, a name up to the first colon, and the properties of the
-- components that are called VEVENT, whose id, summary, place and description are escaped texts. Folded lines
-- and parameters of names, which `GenerateICS` does not write, are not read.
use starbies_schedule_sync.Base.{
  ℕ, ◌==◌, ◌≡◌, refl, sym, Bool, false, ◌&&◌, Option, none, some, List, [], ◌∷◌, ◌++◌, map, All,
  if◌then◌else◌, codes, arith,
}
use mathlib.Core.List.{append_assoc}
use starbies_schedule_sync.Server.Calendar.{
  Line, Text, carriage_return, colon, line_feed, text_eq, write,
}
use starbies_schedule_sync.Server.Calendar.Escapes.{has, has-append, unescape}

abbrev starts_with_line_feed : Text → Bool
starts_with_line_feed [] = false
starts_with_line_feed (c ∷ s) = c == line_feed

abbrev tail : Text → Text
tail [] = []
tail (c ∷ s) = s

-- A character before the first line and the others of what follows it
abbrev cut : ℕ → Text × List Text → Text × List Text
cut c p =
    if c == carriage_return && starts_with_line_feed p.0
    then ([], tail p.0 ∷ p.1)
    else (c ∷ p.0, p.1)

unfoldable pub first_line : Text → Text × List Text
first_line [] = ([], [])
first_line (c ∷ s) = cut c (first_line s)

unfoldable pub split_lines : Text → List Text
unfolding first_line
split_lines s = let (l, ls) = first_line s in l ∷ ls

unfoldable pub split_name : Text → Text × Text
split_name [] = ([], [])
split_name (c ∷ s) =
    let (name, value) = split_name s in if c == colon then ([], s) else (c ∷ name, value)

pub record Vevent : Type 0 where
  pub uid : Text
  pub dtstart : Text
  pub dtend : Text
  pub summary : Text
  pub location : Option Text
  pub description : Option Text

abbrev pub no_vevent : Vevent
no_vevent = record {
  uid = [];
  dtstart = [];
  dtend = [];
  summary = [];
  location = none;
  description = none;
}

abbrev is_vevent : Text → Bool
is_vevent value = text_eq value (codes "VEVENT")

-- One line: what is read of the component so far, and the component when it ends.
abbrev pub read_line : Text × Text → Vevent → Vevent × List Vevent
read_line (name, value) e =
    if text_eq name (codes "BEGIN") && is_vevent value
    then (no_vevent, [])
    else if text_eq name (codes "END") && is_vevent value
    then (e, e ∷ [])
    else if text_eq name (codes "UID")
    then (record e { uid = unescape false value }, [])
    else if text_eq name (codes "DTSTART")
    then (record e { dtstart = value }, [])
    else if text_eq name (codes "DTEND")
    then (record e { dtend = value }, [])
    else if text_eq name (codes "SUMMARY")
    then (record e { summary = unescape false value }, [])
    else if text_eq name (codes "LOCATION")
    then (record e { location = some (unescape false value) }, [])
    else if text_eq name (codes "DESCRIPTION")
    then (record e { description = some (unescape false value) }, [])
    else (e, [])

unfoldable pub read_lines : List (Text × Text) → Vevent → List Vevent
unfolding codes unescape
read_lines [] e = []
read_lines (l ∷ ls) e = let (e', done) = read_line l e in done ++ read_lines ls e'

unfoldable pub read_calendar : Text → List Vevent
unfolding split_lines split_name read_lines
read_calendar s = read_lines (map split_name (split_lines s)) no_vevent

starts-has : (l : Text) → has line_feed l ≡ false → starts_with_line_feed l ≡ false
starts-has [] h = refl
starts-has (c ∷ l) h = ground arith

first_line-line :
    (l rest : Text)
    → has line_feed l ≡ false
    → first_line (l ++ carriage_return ∷ line_feed ∷ rest) ≡ (l, split_lines rest)
unfolding first_line split_lines
first_line-line [] rest h = refl
first_line-line (c ∷ l) rest h =
    let starts : starts_with_line_feed l ≡ false = starts-has l (ground arith) in
    rw (first_line-line l rest (ground arith), starts) (ground arith)

split_name-line :
    (name value : Text)
    → has colon name ≡ false
    → split_name (name ++ colon ∷ value) ≡ (name, value)
unfolding split_name
split_name-line [] value h = refl
split_name-line (c ∷ name) value h = ground (arith, split_name-line name value)

-- A line that can be told from the next, and its name from its value.
abbrev pub IsClean : Line → Type 0
IsClean (name, value) =
    (has colon (codes name) ≡ false)
    × (has line_feed (codes name) ≡ false)
    × (has line_feed value ≡ false)

pub split_lines-write :
    (lines : List Line)
    → All IsClean lines
    → map split_name (split_lines (write lines))
      ≡ map (λ ((name, value) : Line). (codes name, value)) lines ++ ([], []) ∷ []
unfolding write split_lines first_line split_name
split_lines-write [] a = refl
split_lines-write ((name, value) ∷ lines) a =
    let line = codes name ++ colon ∷ value in
    let whole =
      append_assoc (codes name) (colon ∷ value) (carriage_return ∷ line_feed ∷ write lines) in
    let clean = has-append line_feed (codes name) (colon ∷ value) (a.0.1) (a.0.2) in
    rw
      (
        sym whole,
        first_line-line line (write lines) clean,
        split_name-line (codes name) value (a.0.0),
        split_lines-write lines (a.1),
      )
      refl
