-- ===== src/Scraper/Schedule/Defaults.antt =====
-- What `extractShifts` writes of a shift, field by field, with the values that stand in for what the
-- portal leaves out.
use starbies_schedule_sync.Base.{
  ◌≡◌, ◌≢◌, ◌↔◌, ◌⊎◌, ap, String, Option, none, some, arith, eq_iff, or_else,
}
use starbies_schedule_sync.Base.Int.{pos}
use starbies_schedule_sync.Scraper.Schedule.{
  Decimal, Named, RawShift, Shift, hours_or_zero, name_of, shift_of, text_or,
}

-- The text that was found, if it is not empty, and else the default.
abbrev IsText : Option String → String → String → Type 0
IsText found default text =
    ((found ≡ some text) × (text ≢ "")) ⊎ (((found ≡ none) ⊎ (found ≡ some "")) × (text ≡ default))

abbrev pub IsNamed : Option Named → String → String → Type 0
IsNamed none default text = text ≡ default
IsNamed (some named) default text = IsText named.name default text

-- The hours that were found, if they are not 0, and else 0.
abbrev pub IsHours : Option Decimal → Decimal → Type 0
IsHours none hours = hours ≡ record { digits = pos 0; scale = 0 }
IsHours (some given) hours =
    ((hours ≡ given) × (given.digits ≢ pos 0))
    ⊎ ((hours ≡ record { digits = pos 0; scale = 0 }) × (given.digits ≡ pos 0))

-- `String` of the id that was found, which is "undefined" where there is none.
abbrev pub IsId : Option String → String → Type 0
IsId none id = id ≡ "undefined"
IsId (some given) id = id ≡ given

-- A shift is what is submitted for a shift of the portal, its location aside.
pub record IsShiftOf (raw : RawShift) (s : Shift) : Type 0 where
  pub start : s.start ≡ raw.start
  pub end : s.end ≡ raw.end
  pub job_name : IsNamed raw.job "Shift" s.job_name
  pub net_hours : IsHours raw.net_hours s.net_hours
  pub shift_id_ext : IsId raw.scheduled_shift_id s.shift_id_ext

IsText-text_or :
    (found : Option String) (default text : String)
    → (text ≡ text_or found default) ↔ IsText found default text
IsText-text_or none default text = ground arith
IsText-text_or (some given) default text = ground (arith, eq_iff given "")

pub IsNamed-text_or :
    (found : Option Named) (default text : String)
    → (text ≡ text_or (name_of found) default) ↔ IsNamed found default text
IsNamed-text_or none default text = (λ e. e, λ e. e)
IsNamed-text_or (some named) default text = IsText-text_or named.name default text

IsHours-hours_or_zero :
    (found : Option Decimal) (hours : Decimal) → (hours ≡ hours_or_zero found) ↔ IsHours found hours
IsHours-hours_or_zero none hours = (λ e. e, λ e. e)
IsHours-hours_or_zero (some given) hours = ground arith

IsId-or_else :
    (found : Option String) (id : String) → (id ≡ or_else found "undefined") ↔ IsId found id
IsId-or_else none id = (λ e. e, λ e. e)
IsId-or_else (some given) id = (λ e. e, λ e. e)

pub IsShiftOf-shift_of :
    (location : String) (raw : RawShift) (s : Shift)
    → (s ≡ shift_of location raw) ↔ (IsShiftOf raw s × (s.location ≡ location))
IsShiftOf-shift_of location raw s =
    let name = IsNamed-text_or raw.job "Shift" s.job_name in
    let hours = IsHours-hours_or_zero raw.net_hours s.net_hours in
    let id = IsId-or_else raw.scheduled_shift_id s.shift_id_ext in
    (
      λ e. (
        record {
          start = ap (λ (x : Shift). x.start) e;
          end = ap (λ (x : Shift). x.end) e;
          job_name = name.0 (ap (λ (x : Shift). x.job_name) e);
          net_hours = hours.0 (ap (λ (x : Shift). x.net_hours) e);
          shift_id_ext = id.0 (ap (λ (x : Shift). x.shift_id_ext) e);
        },
        ap (λ (x : Shift). x.location) e,
      ),
      λ (p, at).
          cc (p.start, p.end, name.1 p.job_name, hours.1 p.net_hours, id.1 p.shift_id_ext, at),
    )
