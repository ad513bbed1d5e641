-- ===== src/Scraper/Schedule/Order.antt =====
-- The order of the merged days, and that it does not matter in which order weeks were captured.
use starbies_schedule_sync.Base.{
  ◌≡◌, refl, sym, ◌∙◌, String, true, false, Option, none, some, List, [], ◌∷◌, arith, is_some, Has,
  inl, inr, All, Bool-cases,
}
use starbies_schedule_sync.Base.Int.{ℤ}
use starbies_schedule_sync.Scraper.Schedule.{
  Day, Week, time_of, before, earlier, insert, sort, merge_schedule_data,
}
use starbies_schedule_sync.Scraper.Schedule.First.{
  all_days, days_of, merged_days, merged_days_lem, find_day-Has, IsUnique-find_day,
}

pub All-of_Has : (P : Day → Type 0) (ds : List Day) → ((d : Day) → Has d ds → P d) → All P ds
All-of_Has P [] h = tt
All-of_Has P (d ∷ ds) h = (h d (inl refl), All-of_Has P ds (λ e k. h e (inr k)))

pub Has-All : (P : Day → Type 0) (d : Day) (ds : List Day) → All P ds → Has d ds → P d
Has-All P d [] a h = absurd h
Has-All P d (e ∷ es) a (inl same) = rw same a.0
Has-All P d (e ∷ es) a (inr h) = Has-All P d es a.1 h

before_trans :
    (a b c : Option ℤ)
    → is_some b ≡ true
    → before a b ≡ false
    → before b c ≡ false
    → before a c ≡ false
before_trans none b c v h k = refl
before_trans (some a) none c v h k = cc
before_trans (some a) (some b) none v h k = refl
before_trans (some a) (some b) (some c) v h k = ground arith

before_asym : (a b : Option ℤ) → before a b ≡ true → before b a ≡ false
before_asym none b h = cc
before_asym (some a) none h = refl
before_asym (some a) (some b) h = ground arith

pub before_total :
    (a b : Option ℤ)
    → is_some a ≡ true
    → is_some b ≡ true
    → before a b ≡ false
    → before b a ≡ false
    → a ≡ b
before_total none b v w h k = cc
before_total (some a) none v w h k = cc
before_total (some a) (some b) v w h k = ground arith

module _ (date : String → Option ℤ) where
  abbrev pub HasTime : Day → Type 0
  HasTime d = is_some (time_of date d.business_date) ≡ true

  -- No later day of the list is earlier.
  abbrev pub IsAscending : List Day → Type 0
  IsAscending [] = Unit
  IsAscending (d ∷ ds) = All (λ e. earlier date e d ≡ false) ds × IsAscending ds

  All-insert :
      (P : Day → Type 0) (d : Day) (ds : List Day) → P d → All P ds → All P (insert date d ds)
  unfolding insert
  All-insert P d [] p a = (p, tt)
  All-insert P d (e ∷ es) p a = elim (Bool-cases (earlier date e d)) [
    | inl t ↦ rw t (a.0, All-insert P d es p a.1)
    | inr t ↦ rw t (p, a)
  ]

  All-sort : (P : Day → Type 0) (ds : List Day) → All P ds → All P (sort date ds)
  unfolding sort
  All-sort P [] a = tt
  All-sort P (d ∷ ds) a = All-insert P d (sort date ds) a.0 (All-sort P ds a.1)

  All-earlier_trans :
      (e d : Day) (es : List Day)
      → HasTime e
      → earlier date e d ≡ false
      → All (λ x. earlier date x e ≡ false) es
      → All (λ x. earlier date x d ≡ false) es
  All-earlier_trans e d [] v h a = tt
  All-earlier_trans e d (x ∷ es) v h a = (
    before_trans (time_of date x.business_date) (time_of date e.business_date)
        (time_of date d.business_date) v a.0 h,
    All-earlier_trans e d es v h a.1,
  )

  insert-IsAscending :
      (d : Day) (ds : List Day) → All HasTime ds → IsAscending ds → IsAscending (insert date d ds)
  unfolding insert
  insert-IsAscending d [] v a = (tt, tt)
  insert-IsAscending d (e ∷ es) v a = elim (Bool-cases (earlier date e d)) [
    | inl t ↦ rw t (
      All-insert (λ x. earlier date x e ≡ false) d es
          (before_asym (time_of date e.business_date) (time_of date d.business_date) t) a.0,
      insert-IsAscending d es v.1 a.1,
    )
    | inr t ↦ rw t ((t, All-earlier_trans e d es v.0 t a.0), a)
  ]

  sort-IsAscending : (ds : List Day) → All HasTime ds → IsAscending (sort date ds)
  unfolding sort
  sort-IsAscending [] v = tt
  sort-IsAscending (d ∷ ds) v =
      insert-IsAscending d (sort date ds) (All-sort HasTime ds v.1) (sort-IsAscending ds v.1)

  -- If every captured day has a valid date, then the merged days are in the order of their dates.
  pub merge_schedule_data-IsAscending :
      (ws : List Week)
      → ((d : Day) → Has d (all_days ws) → HasTime d)
      → IsAscending (days_of (merge_schedule_data date ws))
  unfolding merge_schedule_data
  merge_schedule_data-IsAscending [] v = tt
  merge_schedule_data-IsAscending (w ∷ ws) v =
      let (unique, found) = merged_days_lem (w ∷ ws) in
      sort-IsAscending (merged_days (w ∷ ws)) (
        All-of_Has HasTime (merged_days (w ∷ ws)) λ d h.
          v d
            (find_day-Has d.business_date d (all_days (w ∷ ws)) (
              sym (found d.business_date) ∙ IsUnique-find_day d (merged_days (w ∷ ws)) unique h)).0)
