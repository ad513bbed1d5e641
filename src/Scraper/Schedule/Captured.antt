-- ===== src/Scraper/Schedule/Captured.antt =====
-- The merged days do not depend on the order in which the weeks were captured.
use starbies_schedule_sync.Base.{
  ◌≡◌, ◌↔◌, refl, sym, ap, ◌∙◌, String, false, Option, none, some, List, [], ◌∷◌, arith, Has, inl,
  inr, All, Bool-cases, Option-cases,
}
use mathlib.Core.Path.{ap₂}
use starbies_schedule_sync.Base.Int.{ℤ}
use starbies_schedule_sync.Scraper.Schedule.{
  Day, Week, same_date, time_of, earlier, merge_schedule_data,
}
use starbies_schedule_sync.Scraper.Schedule.First.{
  find_day, all_days, days_of, IsUnique, same_date-eq, same_date_refl, find_day-Has, Has-find_day,
  IsUnique-find_day, merge_schedule_data-find_day,
}
use starbies_schedule_sync.Scraper.Schedule.Order.{
  All-of_Has, Has-All, before_total, HasTime, IsAscending, merge_schedule_data-IsAscending,
}

-- Days of a list have different dates at different times only.
abbrev pub TellsApart : (String → Option ℤ) → List Day → Type 0
TellsApart date ds =
    (a b : Day)
    → Has a ds
    → Has b ds
    → time_of date a.business_date ≡ time_of date b.business_date
    → a.business_date ≡ b.business_date

module _ (date : String → Option ℤ) (P : Day → Type 0) where
  abbrev Tells : Type 0
  Tells =
      (a b : Day)
      → P a
      → P b
      → time_of date a.business_date ≡ time_of date b.business_date
      → a.business_date ≡ b.business_date

  abbrev Times : Type 0
  Times = (d : Day) → P d → HasTime date d

  -- The heads of two ascending lists with the same days by date.
  heads_eq :
      (tells : Tells) (times : Times) (x y : Day) (xs ys : List Day)
      → P x
      → P y
      → All (λ e. earlier date e x ≡ false) xs
      → All (λ e. earlier date e y ≡ false) ys
      → find_day x.business_date (y ∷ ys) ≡ some x
      → find_day y.business_date (x ∷ xs) ≡ some y
      → x ≡ y
  heads_eq tells times x y xs ys px py ax ay fx fy =
      elim (Bool-cases (same_date y.business_date x.business_date)) [
        | inl t ↦ ground (arith, t)
        | inr t ↦
            let u : same_date x.business_date y.business_date ≡ false = ground (
              arith,
              t,
              same_date-eq x.business_date y.business_date,
              same_date_refl x.business_date,
            ) in
            let (x_there, _) = find_day-Has x.business_date x ys (ground (arith, t)) in
            let (y_there, _) = find_day-Has y.business_date y xs (ground (arith, u)) in
            let same =
              before_total (time_of date x.business_date) (time_of date y.business_date)
                (times x px) (times y py) (Has-All _ x ys ay x_there) (Has-All _ y xs ax y_there) in
            let e = tells x y px py same in ground (arith, e, t, same_date_refl x.business_date)
      ]

  same_tails :
      (x : Day) (xs ys : List Day)
      → find_day x.business_date xs ≡ none
      → find_day x.business_date ys ≡ none
      → ((k : Option String) → find_day k (x ∷ xs) ≡ find_day k (x ∷ ys))
      → (k : Option String) → find_day k xs ≡ find_day k ys
  same_tails x xs ys h h' same k = ground (arith, same k, same_date-eq x.business_date k)

  ascending_eq :
      (tells : Tells) (times : Times) (xs ys : List Day)
      → All P xs
      → All P ys
      → IsUnique xs
      → IsUnique ys
      → IsAscending date xs
      → IsAscending date ys
      → ((k : Option String) → find_day k xs ≡ find_day k ys)
      → xs ≡ ys
  ascending_eq tells times [] [] px py ux uy ax ay same = refl
  ascending_eq tells times [] (y ∷ ys) px py ux uy ax ay same =
      ground (arith, same y.business_date, same_date_refl y.business_date)
  ascending_eq tells times (x ∷ xs) [] px py ux uy ax ay same =
      ground (arith, same x.business_date, same_date_refl x.business_date)
  ascending_eq tells times (x ∷ xs) (y ∷ ys) px py ux uy ax ay same =
      let head =
        heads_eq tells times x y xs ys px.0 py.0 ax.0 ay.0
          (sym (same x.business_date) ∙ IsUnique-find_day x (x ∷ xs) ux (inl refl))
          (same y.business_date ∙ IsUnique-find_day y (y ∷ ys) uy (inl refl)) in
      let same' = rw (← head) at same in
      let uy' = rw (← head) at uy in
      let ay' = rw (← head) at ay in
      ap₂ ◌∷◌ head (
        ascending_eq tells times xs ys px.1 py.1 ux.1 uy'.1 ax.1 ay'.1
          (same_tails x xs ys ux.0 uy'.0 same'))

find_day-eq :
    (k : Option String) (xs ys : List Day)
    → ((d : Day) → Has d xs ↔ Has d ys)
    → ((a b : Day) → Has a xs → Has b xs → a.business_date ≡ b.business_date → a ≡ b)
    → find_day k xs ≡ find_day k ys
find_day-eq k xs ys same agree = elim (Option-cases (find_day k xs)) [
  | inl e ↦ elim (Option-cases (find_day k ys)) [
    | inl e' ↦ e ∙ sym e'
    | inr (d, f) ↦
        let (there, is_k) = find_day-Has k d ys f in
        let found = Has-find_day d xs ((same d).1 there) in
        ground (arith, found, ap (λ j. find_day j xs) is_k, e)
  ]
  | inr (d, f) ↦
      let (here, is_k) = find_day-Has k d xs f in
      let found = Has-find_day d ys ((same d).0 here) in
      elim (Option-cases (find_day k ys)) [
        | inl e' ↦ ground (arith, found, ap (λ j. find_day j ys) is_k, e')
        | inr (d', f') ↦
            let (there, is_k') = find_day-Has k d' ys f' in
            f ∙ ap some (agree d d' here ((same d').1 there) (is_k ∙ sym is_k')) ∙ sym f'
      ]
]

Has-merge_schedule_data :
    (date : String → Option ℤ) (ws : List Week) (d : Day)
    → Has d (days_of (merge_schedule_data date ws))
    → Has d (all_days ws)
Has-merge_schedule_data date ws d h =
    let (unique, found) = merge_schedule_data-find_day date ws d.business_date in
    (find_day-Has d.business_date d (all_days ws)
      (sym found ∙ IsUnique-find_day d (days_of (merge_schedule_data date ws)) unique h)).0

-- If two runs capture the same days, each with one content and a valid date of its own, then their
-- merged days are the same list, in whatever order and however often the days were captured.
pub merge_schedule_data-eq :
    (date : String → Option ℤ) (ws ws' : List Week)
    → ((d : Day) → Has d (all_days ws) ↔ Has d (all_days ws'))
    → ((a b : Day)
        → Has a (all_days ws)
        → Has b (all_days ws)
        → a.business_date ≡ b.business_date
        → a ≡ b)
    → ((d : Day) → Has d (all_days ws) → HasTime date d)
    → TellsApart date (all_days ws)
    → days_of (merge_schedule_data date ws) ≡ days_of (merge_schedule_data date ws')
merge_schedule_data-eq date ws ws' same agree times tells =
    let P = λ (d : Day). Has d (all_days ws) in
    let xs = days_of (merge_schedule_data date ws) in
    let ys = days_of (merge_schedule_data date ws') in
    ascending_eq date P tells times xs ys (All-of_Has P xs (Has-merge_schedule_data date ws))
      (All-of_Has P ys (λ d h. (same d).1 (Has-merge_schedule_data date ws' d h)))
      (merge_schedule_data-find_day date ws none).0 (merge_schedule_data-find_day date ws' none).0
      (merge_schedule_data-IsAscending date ws times)
      (merge_schedule_data-IsAscending date ws' (λ d h. times d ((same d).1 h)))
      (λ k.
        (merge_schedule_data-find_day date ws k).1
        ∙ find_day-eq k (all_days ws) (all_days ws') same agree
        ∙ sym (merge_schedule_data-find_day date ws' k).1)
