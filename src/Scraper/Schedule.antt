-- ===== src/Scraper/Schedule.antt =====
-- The data helpers of scraper/scrape.js: `mergeScheduleData` and `extractShifts`.
-- `Date` is a parameter, as in Dashboard.antt. `sort` is a stable sort; where some dates are invalid
-- the comparison is inconsistent, and the order is then up to the engine.
pub mod First
pub mod Order
pub mod Captured
pub mod Defaults
pub mod Shifts
use starbies_schedule_sync.Base.{
  zero, ℕ, String, Bool, true, false, ◌||◌, Option, none, some, List, [], ◌∷◌, ◌++◌, map, or_else,
  if◌then◌else◌, str_eq,
}
use starbies_schedule_sync.Base.Int.{ℤ, pos, negsuc, ltb_ℤ}

-- A JSON number: digits * 10 ^ -scale.
pub record Decimal : Type 0 where
  pub digits : ℤ
  pub scale : ℕ

pub record Named : Type 0 where
  pub name : Option String

-- The keys of the portal's documents that the script reads; `none` is a key that is not there. The
-- id is the text that `String` makes of the value.
pub record RawShift : Type 0 where
  pub start : Option String
  pub end : Option String
  pub job : Option Named
  pub net_hours : Option Decimal
  pub scheduled_shift_id : Option String

pub record Day : Type 0 where
  pub business_date : Option String
  pub pay_scheduled_shifts : Option (List RawShift)

pub record Week : Type 0 where
  pub days : Option (List Day)
  pub home_site : Option Named

-- Equality of keys in a `Set`.
abbrev pub same_date : Option String → Option String → Bool
same_date none none = true
same_date (some a) (some b) = str_eq a b
same_date _ _ = false

abbrev pub has_date : Option String → List (Option String) → Bool
has_date k [] = false
has_date k (j ∷ seen) = same_date j k || has_date k seen

-- `seen` and `merged.days` of the loop.
pub record Merging : Type 0 where
  pub seen : List (Option String)
  pub days : List Day

unfoldable pub add_day : Day → Merging → Merging
add_day d m =
    if has_date d.business_date m.seen
    then m
    else (record { seen = d.business_date ∷ m.seen; days = m.days ++ d ∷ [] })

unfoldable pub add_days : List Day → Merging → Merging
unfolding add_day
add_days [] m = m
add_days (d ∷ ds) m = add_days ds (add_day d m)

unfoldable pub add_weeks : List Week → Merging → Merging
unfolding add_days
add_weeks [] m = m
add_weeks (w ∷ ws) m = add_weeks ws (add_days (or_else w.days []) m)

-- `<` on times, which is false for `NaN`
abbrev pub before : Option ℤ → Option ℤ → Bool
before (some a) (some b) = ltb_ℤ a b
before _ _ = false

module _ (date : String → Option ℤ) where
  abbrev pub time_of : Option String → Option ℤ
  time_of none = none
  time_of (some text) = date text

  -- `new Date(a.businessDate) - new Date(b.businessDate) < 0`
  abbrev pub earlier : Day → Day → Bool
  earlier a b = before (time_of a.business_date) (time_of b.business_date)

  unfoldable pub insert : Day → List Day → List Day
  insert d [] = d ∷ []
  insert d (e ∷ es) = let rest = insert d es in if earlier e d then e ∷ rest else d ∷ e ∷ es

  unfoldable pub sort : List Day → List Day
  unfolding insert
  sort [] = []
  sort (d ∷ ds) = insert d (sort ds)

  unfoldable pub merge_schedule_data : List Week → Week
  unfolding sort add_weeks
  merge_schedule_data [] = record { days = some []; home_site = none }
  merge_schedule_data (w ∷ ws) = record w {
    days = some (sort (add_weeks (w ∷ ws) (record { seen = []; days = [] })).days);
  }

-- `shift || fallback`
abbrev pub text_or : Option String → String → String
text_or none fallback = fallback
text_or (some text) fallback = if str_eq text "" then fallback else text

abbrev pub name_of : Option Named → Option String
name_of none = none
name_of (some named) = named.name

abbrev zero_hours : Decimal
zero_hours = record { digits = pos 0; scale = 0 }

abbrev hours_if_nonzero : ℤ → Decimal → Decimal
hours_if_nonzero (pos zero) hours = zero_hours
hours_if_nonzero _ hours = hours

-- `netHours || 0`
abbrev pub hours_or_zero : Option Decimal → Decimal
hours_or_zero none = zero_hours
hours_or_zero (some hours) = hours_if_nonzero hours.digits hours

-- What the script submits; keys that are not there are left out of the document.
pub record Shift : Type 0 where
  pub start : Option String
  pub end : Option String
  pub job_name : String
  pub net_hours : Decimal
  pub shift_id_ext : String
  pub location : String

abbrev pub shift_of : String → RawShift → Shift
shift_of location raw = record {
  start = raw.start;
  end = raw.end;
  job_name = text_or (name_of raw.job) "Shift";
  net_hours = hours_or_zero raw.net_hours;
  shift_id_ext = or_else raw.scheduled_shift_id "undefined";
  location = location;
}

unfoldable pub extract_days : String → List Day → List Shift
extract_days location [] = []
extract_days location (d ∷ ds) =
    map (shift_of location) (or_else d.pay_scheduled_shifts []) ++ extract_days location ds

unfoldable pub extract_shifts : Week → List Shift
unfolding extract_days
extract_shifts week = extract_days (text_or (name_of week.home_site) "Work") (or_else week.days [])
