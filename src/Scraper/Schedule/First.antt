-- ===== src/Scraper/Schedule/First.antt =====
-- Which day the merged schedule has for a date.
use starbies_schedule_sync.Base.{
  Bool-cases, ◌≡◌, refl, sym, ap, ◌∙◌, String, true, Option, none, some, List, [], ◌∷◌, ◌++◌, arith,
  eq_iff, is_some, or_else, if◌then◌else◌, Has, inl, inr,
}
use mathlib.Core.List.{append-nil}
use starbies_schedule_sync.Base.Int.{ℤ}
use starbies_schedule_sync.Scraper.Schedule.{
  Day, Week, same_date, has_date, Merging, add_day, add_days, add_weeks, insert, sort,
  merge_schedule_data,
}

-- The first day of a list that has the date.
abbrev pub find_day : Option String → List Day → Option Day
find_day k [] = none
find_day k (d ∷ ds) = if same_date d.business_date k then some d else find_day k ds

abbrev pub all_days : List Week → List Day
all_days [] = []
all_days (w ∷ ws) = or_else w.days [] ++ all_days ws

abbrev pub days_of : Week → List Day
days_of w = or_else w.days []

-- No two days of the list have one date.
abbrev pub IsUnique : List Day → Type 0
IsUnique [] = Unit
IsUnique (d ∷ ds) = (find_day d.business_date ds ≡ none) × IsUnique ds

pub same_date-eq : (j k : Option String) → same_date j k ≡ true → j ≡ k
same_date-eq none none h = refl
same_date-eq (some a) (some b) h = ground (arith, eq_iff a b)
same_date-eq none (some b) h = cc
same_date-eq (some a) none h = cc

pub same_date_refl : (k : Option String) → same_date k k ≡ true
same_date_refl none = refl
same_date_refl (some a) = (eq_iff a a).1 refl

find_day-append :
    (k : Option String) (ds es : List Day)
    → find_day k (ds ++ es) ≡ (if is_some (find_day k ds) then find_day k ds else find_day k es)
find_day-append k [] es = refl
find_day-append k (d ∷ ds) es = ground (arith, find_day-append k ds es)

IsUnique-append :
    (ds : List Day) (d : Day)
    → IsUnique ds
    → find_day d.business_date ds ≡ none
    → IsUnique (ds ++ d ∷ [])
IsUnique-append [] d u h = ground arith
IsUnique-append (e ∷ ds) d u h = ground (
  arith,
  IsUnique-append ds d,
  find_day-append e.business_date ds (d ∷ []),
  same_date-eq d.business_date e.business_date,
  same_date_refl e.business_date,
)

-- What the loop keeps: `seen` holds the dates of the days, and no date stands there twice.
record Inv (m : Merging) : Type 0 where
  pub seen : (k : Option String) → has_date k m.seen ≡ is_some (find_day k m.days)
  pub unique : IsUnique m.days

module _ (d : Day) (m : Merging) (inv : Inv m) where
  add_day-seen :
      (k : Option String) → has_date k (add_day d m).seen ≡ is_some (find_day k (add_day d m).days)
  unfolding add_day
  add_day-seen k =
      ground (arith, inv.seen k, inv.seen d.business_date, find_day-append k m.days (d ∷ []))

  add_day-IsUnique : IsUnique (add_day d m).days
  unfolding add_day
  add_day-IsUnique = ground (arith, inv.seen d.business_date, IsUnique-append m.days d)

  add_day-Inv : Inv (add_day d m)
  add_day-Inv = record { seen = add_day-seen; unique = add_day-IsUnique }

  add_day-find_day :
      (k : Option String) → find_day k (add_day d m).days ≡ find_day k (m.days ++ d ∷ [])
  unfolding add_day
  add_day-find_day k = ground (
    arith,
    inv.seen d.business_date,
    find_day-append k m.days (d ∷ []),
    same_date-eq d.business_date k,
  )

add_days_lem :
    (ds : List Day) (m : Merging)
    → Inv m
    → Inv (add_days ds m)
      × ((k : Option String) → find_day k (add_days ds m).days ≡ find_day k (m.days ++ ds))
unfolding add_days
add_days_lem [] m inv = (inv, λ k. ap (find_day k) (sym (append-nil m.days)))
add_days_lem (d ∷ ds) m inv =
    let (inv', found) = add_days_lem ds (add_day d m) (add_day-Inv d m inv) in
    (
      inv',
      λ k. ground (
        arith,
        found k,
        add_day-find_day d m inv k,
        find_day-append k (add_day d m).days ds,
        find_day-append k m.days (d ∷ ds),
        find_day-append k m.days (d ∷ []),
      ),
    )

add_weeks_lem :
    (ws : List Week) (m : Merging)
    → Inv m
    → Inv (add_weeks ws m)
      × ((k : Option String)
          → find_day k (add_weeks ws m).days ≡ find_day k (m.days ++ all_days ws))
unfolding add_weeks
add_weeks_lem [] m inv = (inv, λ k. ap (find_day k) (sym (append-nil m.days)))
add_weeks_lem (w ∷ ws) m inv =
    let ds = days_of w in
    let (inv', found) = add_days_lem ds m inv in
    let (inv'', found') = add_weeks_lem ws (add_days ds m) inv' in
    (
      inv'',
      λ k. ground (
        arith,
        found k,
        found' k,
        find_day-append k (add_days ds m).days (all_days ws),
        find_day-append k m.days (ds ++ all_days ws),
        find_day-append k m.days ds,
        find_day-append k ds (all_days ws),
      ),
    )

abbrev nothing_merged : Merging
nothing_merged = record { seen = []; days = [] }

-- The days before they are sorted.
abbrev pub merged_days : List Week → List Day
merged_days ws = (add_weeks ws nothing_merged).days

pub merged_days_lem :
    (ws : List Week)
    → IsUnique (merged_days ws)
      × ((k : Option String) → find_day k (merged_days ws) ≡ find_day k (all_days ws))
merged_days_lem ws =
    let empty : Inv nothing_merged = record { seen = λ k. refl; unique = tt } in
    let (inv, found) = add_weeks_lem ws nothing_merged empty in (inv.unique, found)

pub find_day-Has :
    (k : Option String) (d : Day) (ds : List Day)
    → find_day k ds ≡ some d
    → Has d ds × (d.business_date ≡ k)
find_day-Has k d [] h = cc
find_day-Has k d (e ∷ es) h = elim (Bool-cases (same_date e.business_date k)) [
  | inl t ↦
      let same : e ≡ d = ground arith in
      (inl (sym same), rw (← same) (same_date-eq e.business_date k t))
  | inr t ↦ let (there, same) = find_day-Has k d es (ground arith) in (inr there, same)
]

pub Has-find_day :
    (d : Day) (ds : List Day) → Has d ds → is_some (find_day d.business_date ds) ≡ true
Has-find_day d [] h = absurd h
Has-find_day d (e ∷ es) (inl same) = rw same (ground (arith, same_date_refl e.business_date))
Has-find_day d (e ∷ es) (inr h) = ground (arith, Has-find_day d es h)

-- In a list without repeated dates a day is found by its date.
pub IsUnique-find_day :
    (d : Day) (ds : List Day) → IsUnique ds → Has d ds → find_day d.business_date ds ≡ some d
IsUnique-find_day d [] u h = absurd h
IsUnique-find_day d (e ∷ es) u (inl same) = rw same (ground (arith, same_date_refl e.business_date))
IsUnique-find_day d (e ∷ es) u (inr h) =
    ground (arith, IsUnique-find_day d es u.1 h, same_date-eq e.business_date d.business_date)

module _ (date : String → Option ℤ) where
  find_day-insert :
      (k : Option String) (d : Day) (ds : List Day)
      → find_day d.business_date ds ≡ none
      → find_day k (insert date d ds) ≡ find_day k (d ∷ ds)
  unfolding insert
  find_day-insert k d [] h = refl
  find_day-insert k d (e ∷ es) h = ground (
    arith,
    find_day-insert k d es,
    same_date-eq d.business_date k,
    same_date-eq e.business_date k,
    same_date_refl e.business_date,
  )

  insert-IsUnique :
      (d : Day) (ds : List Day)
      → find_day d.business_date ds ≡ none
      → IsUnique ds
      → IsUnique (insert date d ds)
  unfolding insert
  insert-IsUnique d [] h u = ground arith
  insert-IsUnique d (e ∷ es) h u = ground (
    arith,
    insert-IsUnique d es,
    find_day-insert e.business_date d es,
    same_date-eq d.business_date e.business_date,
    same_date_refl e.business_date,
  )

  pub sort_lem :
      (ds : List Day)
      → IsUnique ds
      → IsUnique (sort date ds) × ((k : Option String) → find_day k (sort date ds) ≡ find_day k ds)
  unfolding sort
  sort_lem [] u = (tt, λ k. refl)
  sort_lem (d ∷ ds) u =
      let (u', found) = sort_lem ds u.1 in
      let free = found d.business_date ∙ u.0 in
      (
        insert-IsUnique d (sort date ds) free u',
        λ k. ground (arith, find_day-insert k d (sort date ds) free, found k),
      )

  -- The merged schedule has each date at most once, and for every date the day that was captured
  -- first.
  pub merge_schedule_data-find_day :
      (ws : List Week) (k : Option String)
      → IsUnique (days_of (merge_schedule_data date ws))
        × (find_day k (days_of (merge_schedule_data date ws)) ≡ find_day k (all_days ws))
  unfolding merge_schedule_data
  merge_schedule_data-find_day [] k = (tt, refl)
  merge_schedule_data-find_day (w ∷ ws) k =
      let (unique, found) = merged_days_lem (w ∷ ws) in
      let (unique', kept) = sort_lem (merged_days (w ∷ ws)) unique in (unique', kept k ∙ found k)
