-- ===== src/Scraper/Schedule/Shifts.antt =====
-- Which shifts are submitted.
use starbies_schedule_sync.Base.{
  ◌≡◌, ◌↔◌, ◌⊎◌, inl, inr, refl, sym, ap, ◌∙◌, String, Option, some, List, [], ◌∷◌, ◌++◌, map,
  or_else, Has,
}
use starbies_schedule_sync.Base.Int.{ℤ}
use starbies_schedule_sync.Scraper.Schedule.{
  RawShift, Day, Week, Shift, shift_of, extract_days, extract_shifts, text_or, name_of,
  merge_schedule_data,
}
use starbies_schedule_sync.Scraper.Schedule.Defaults.{
  IsNamed, IsShiftOf, IsNamed-text_or, IsShiftOf-shift_of,
}
use starbies_schedule_sync.Scraper.Schedule.First.{
  days_of, all_days, find_day, find_day-Has, IsUnique-find_day, merge_schedule_data-find_day,
}

abbrev pub shifts_of : Day → List RawShift
shifts_of d = or_else d.pay_scheduled_shifts []

abbrev pub location_of : Week → String
location_of week = text_or (name_of week.home_site) "Work"

Has-append : (s : Shift) (xs ys : List Shift) → Has s (xs ++ ys) ↔ (Has s xs ⊎ Has s ys)
Has-append s [] ys = (λ h. inr h, elim [ inl h ↦ absurd h | inr h ↦ h ])
Has-append s (x ∷ xs) ys =
    let ih = Has-append s xs ys in
    (
      elim [ inl e ↦ inl (inl e) | inr h ↦ elim (ih.0 h) [ inl k ↦ inl (inr k) | inr k ↦ inr k ] ],
      elim [ inl (inl e) ↦ inl e | inl (inr k) ↦ inr (ih.1 (inl k)) | inr k ↦ inr (ih.1 (inr k)) ],
    )

module _ (location : String) (s : Shift) where
  Has-map :
      (raws : List RawShift)
      → Has s (map (shift_of location) raws)
      → (raw : RawShift) × Has raw raws × (s ≡ shift_of location raw)
  Has-map [] h = absurd h
  Has-map (r ∷ raws) (inl e) = (r, inl refl, e)
  Has-map (r ∷ raws) (inr h) = let (raw, there, e) = Has-map raws h in (raw, inr there, e)

  map-Has :
      (raw : RawShift) (raws : List RawShift)
      → s ≡ shift_of location raw
      → Has raw raws
      → Has s (map (shift_of location) raws)
  map-Has raw [] e h = absurd h
  map-Has raw (r ∷ raws) e (inl same) = inl (e ∙ ap (shift_of location) same)
  map-Has raw (r ∷ raws) e (inr h) = inr (map-Has raw raws e h)

  abbrev IsFrom : List Day → Type 0
  IsFrom ds =
      (d : Day) × (raw : RawShift) × Has d ds × Has raw (shifts_of d) × (s ≡ shift_of location raw)

  Has-extract_days : (ds : List Day) → Has s (extract_days location ds) → IsFrom ds
  unfolding extract_days
  Has-extract_days [] h = absurd h
  Has-extract_days (d ∷ ds) h =
      elim ((Has-append s (map (shift_of location) (shifts_of d)) (extract_days location ds)).0 h) [
        | inl k ↦ let (raw, there, e) = Has-map (shifts_of d) k in (d, raw, inl refl, there, e)
        | inr k ↦ let (d', raw, there, at, e) = Has-extract_days ds k in (d', raw, inr there, at, e)
      ]

  extract_days-Has :
      (d : Day) (raw : RawShift) (ds : List Day)
      → Has raw (shifts_of d)
      → s ≡ shift_of location raw
      → Has d ds
      → Has s (extract_days location ds)
  unfolding extract_days
  extract_days-Has d raw [] at e h = absurd h
  extract_days-Has d raw (x ∷ ds) at e (inl same) =
      (Has-append s (map (shift_of location) (shifts_of x)) (extract_days location ds)).1
        (inl (map-Has raw (shifts_of x) e (rw same at at)))
  extract_days-Has d raw (x ∷ ds) at e (inr h) =
      (Has-append s (map (shift_of location) (shifts_of x)) (extract_days location ds)).1
        (inr (extract_days-Has d raw ds at e h))

-- The location of the first week, also where there is no week to take it from.
abbrev pub IsLocation : List Week → String → Type 0
IsLocation [] location = location ≡ "Work"
IsLocation (w ∷ ws) location = IsNamed w.home_site "Work" location

location_of-merge_schedule_data :
    (date : String → Option ℤ) (ws : List Week) (location : String)
    → (location ≡ location_of (merge_schedule_data date ws)) ↔ IsLocation ws location
unfolding merge_schedule_data
location_of-merge_schedule_data date [] location = (λ e. e, λ e. e)
location_of-merge_schedule_data date (w ∷ ws) location = IsNamed-text_or w.home_site "Work" location

-- A shift is extracted from the merged schedule exactly if it is, field by field, a shift of the day
-- that was captured first for its date: with its start and end as they are, its job, hours and id or
-- their defaults, and as its location the name of the home site of the week captured first, or "Work".
pub Has-extract_shifts :
    (date : String → Option ℤ) (ws : List Week) (s : Shift)
    → Has s (extract_shifts (merge_schedule_data date ws)) ↔ (
        (d : Day) × (raw : RawShift) × (find_day d.business_date (all_days ws) ≡ some d)
        × Has raw (shifts_of d)
        × IsShiftOf raw s
        × IsLocation ws s.location)
unfolding extract_shifts
Has-extract_shifts date ws s =
    let merged = merge_schedule_data date ws in
    let located = location_of-merge_schedule_data date ws s.location in
    (
      λ h.
          let (d, raw, there, at, e) = Has-extract_days (location_of merged) s (days_of merged) h in
          let (unique, found) = merge_schedule_data-find_day date ws d.business_date in
          let (fields, place) = (IsShiftOf-shift_of (location_of merged) raw s).0 e in
          (
            d,
            raw,
            sym found ∙ IsUnique-find_day d (days_of merged) unique there,
            at,
            fields,
            located.0 place,
          ),
      λ (d, raw, first, at, fields, place).
          let (unique, found) = merge_schedule_data-find_day date ws d.business_date in
          let e = (IsShiftOf-shift_of (location_of merged) raw s).1 (fields, located.1 place) in
          extract_days-Has (location_of merged) s d raw (days_of merged) at e
            (find_day-Has d.business_date d (days_of merged) (found ∙ first)).0,
    )
