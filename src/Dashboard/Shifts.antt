-- ===== src/Dashboard/Shifts.antt =====
-- Which shifts the dashboard lists.
use mathlib.Core.List.{reverse-append}
use starbies_schedule_sync.Base.{
  ℕ, suc, ◌+◌, ◌-◌, ◌≤◌, ◌<◌, ◌≡◌, ◌≢◌, ◌⊎◌, inl, inr, refl, sym, ap, ◌∙◌, Bool, true, false,
  Option, none, some, List, [], ◌∷◌, reverse, arith, Has, length, length-append, drop, take,
  take_all, take-append, Bool-cases, if◌then◌else◌,
}
use native.Mathlib.Decide.{dec_lt}
use starbies_schedule_sync.Base.Int.{ℤ, ◌≤ℤ◌}
use starbies_schedule_sync.Api.Types.{Shift}
use starbies_schedule_sync.Dashboard.{
  Dates, ends_after, ended_by, filter_upcoming, filter_past, recent,
}

Has-if :
    (b : Bool) (s x : Shift) (rest ss : List Shift) (P : Type 0)
    → (Has s rest → Has s ss × P)
    → (s ≡ x → b ≡ true → P)
    → Has s (if b then x ∷ rest else rest)
    → Has s (x ∷ ss) × P
Has-if true s x rest ss P f g (inl e) = (inl e, g e refl)
Has-if true s x rest ss P f g (inr h) = (inr (f h).0, (f h).1)
Has-if false s x rest ss P f g h = (inr (f h).0, (f h).1)

if-Has-tail :
    (b : Bool) (s x : Shift) (rest : List Shift) → Has s rest → Has s (if b then x ∷ rest else rest)
if-Has-tail true s x rest h = inr h
if-Has-tail false s x rest h = h

module _ (date : Dates) (clock : ℕ → ℤ) where
  filter_upcoming-Has :
      (n : ℕ) (ss : List Shift) (s : Shift)
      → Has s (filter_upcoming date clock n ss)
      → Has s ss × ((k : ℕ) × (ends_after (date s.end_time) (clock k) ≡ true))
  unfolding filter_upcoming
  filter_upcoming-Has n [] s h = absurd h
  filter_upcoming-Has n (x ∷ ss) s h =
      Has-if (ends_after (date x.end_time) (clock n)) s x _ ss _ (filter_upcoming-Has (suc n) ss s)
        (λ e t. (n, rw e t)) h

  filter_past-Has :
      (n : ℕ) (ss : List Shift) (s : Shift)
      → Has s (filter_past date clock n ss)
      → Has s ss × ((k : ℕ) × (ended_by (date s.end_time) (clock k) ≡ true))
  unfolding filter_past
  filter_past-Has n [] s h = absurd h
  filter_past-Has n (x ∷ ss) s h =
      Has-if (ended_by (date x.end_time) (clock n)) s x _ ss _ (filter_past-Has (suc n) ss s)
        (λ e t. (n, rw e t)) h

  Has-filter_past :
      (n : ℕ) (ss : List Shift) (s : Shift)
      → Has s ss
      → ((m : ℕ) → n ≤ m → ended_by (date s.end_time) (clock m) ≡ true)
      → Has s (filter_past date clock n ss)
  unfolding filter_past
  Has-filter_past n [] s h past = absurd h
  Has-filter_past n (x ∷ ss) s (inl e) past = rw (← e) (rw (past n (omega arith)) (inl refl))
  Has-filter_past n (x ∷ ss) s (inr h) past =
      if-Has-tail _ s x _ (Has-filter_past (suc n) ss s h (λ m k. past m (omega arith)))

  Has-filter_upcoming :
      (n : ℕ) (ss : List Shift) (s : Shift)
      → Has s ss
      → Has s (filter_upcoming date clock n ss)
        ⊎ ((k : ℕ) × (k < n + length ss) × (ends_after (date s.end_time) (clock k) ≡ false))
  unfolding filter_upcoming
  Has-filter_upcoming n [] s h = absurd h
  Has-filter_upcoming n (x ∷ ss) s (inl e) =
      elim (Bool-cases (ends_after (date s.end_time) (clock n))) [
        | inl t ↦ inl (rw (← e) (rw t (inl refl)))
        | inr t ↦ inr (n, omega arith, t)
      ]
  Has-filter_upcoming n (x ∷ ss) s (inr h) = elim (Has-filter_upcoming (suc n) ss s h) [
    | inl t ↦ inl (if-Has-tail _ s x _ t)
    | inr t ↦ inr (t.0, omega (arith, t.1), t.2)
  ]

abbrev IsMonotone : (ℕ → ℤ) → Type 0
IsMonotone clock = (k m : ℕ) → k ≤ m → clock k ≤ℤ clock m

-- While the clock does not run backwards, every shift of the schedule whose end is a valid date is
-- listed as upcoming or counted as past.
pub filter-Has :
    (date : Dates) (clock : ℕ → ℤ) (ss : List Shift) (s : Shift) (end : ℤ)
    → IsMonotone clock
    → date s.end_time ≡ some end
    → Has s ss
    → Has s (filter_upcoming date clock 0 ss) ⊎ Has s (filter_past date clock (length ss) ss)
filter-Has date clock ss s end mono valid h = elim (Has-filter_upcoming date clock 0 ss s h) [
  | inl t ↦ inl t
  | inr t ↦
      inr (
        Has-filter_past date clock (length ss) ss s h
          (λ m le. ground (arith, mono t.0 m, t.1, t.2)))
]

exclusive : (end : Option ℤ) (now : ℤ) → ends_after end now ≡ true → ¬ (ended_by end now ≡ true)
exclusive end now after by = ground arith

-- At one moment, what is listed as upcoming or as past is in the schedule, with an end that is a
-- valid date, and no shift is in both lists.
pub filter_exclusive :
    (date : Dates) (now : ℤ) (i j : ℕ) (ss : List Shift) (s : Shift)
    → let upcoming = filter_upcoming date (λ _. now) i ss in
      let past = filter_past date (λ _. now) j ss in
      (Has s upcoming ⊎ Has s past → Has s ss × (date s.end_time ≢ none))
      × (Has s upcoming → ¬ Has s past)
filter_exclusive date now i j ss s = (
  elim [
    | inl t ↦
        let (listed, (k, after)) = filter_upcoming-Has date (λ _. now) i ss s t in
        (listed, λ e. ground arith)
    | inr t ↦
        let (listed, (k, by)) = filter_past-Has date (λ _. now) j ss s t in
        (listed, λ e. ground arith)
  ],
  λ t u.
      let (_, (k, after)) = filter_upcoming-Has date (λ _. now) i ss s t in
      let (_, (m, by)) = filter_past-Has date (λ _. now) j ss s u in
      exclusive (date s.end_time) now after by,
)

length-reverse : (ss : List Shift) → length (reverse ss) ≡ length ss
length-reverse [] = refl
length-reverse (s ∷ ss) =
    ap length (reverse-append (s ∷ []) ss)
    ∙ omega (arith, length-append (reverse ss) (s ∷ []), length-reverse ss)

reverse-drop : (n : ℕ) (ss : List Shift) → reverse (drop (length ss - n) ss) ≡ take n (reverse ss)
reverse-drop n [] = let e : 0 - n ≡ 0 = omega arith in rw e (sym (take_all n [] (omega arith)))
reverse-drop n (s ∷ ss) = elim (dec_lt n (suc (length ss))) [
  | yes h ↦
      let e : suc (length ss) - n ≡ suc (length ss - n) = omega arith in
      rw e (
        reverse-drop n ss
        ∙ sym (
            ap (take n) (reverse-append (s ∷ []) ss)
            ∙ take-append n (reverse ss) (s ∷ []) (omega (arith, length-reverse ss))))
  | no h ↦
      let e : suc (length ss) - n ≡ 0 = omega arith in
      rw e (sym (take_all n (reverse (s ∷ ss)) (omega (arith, length-reverse (s ∷ ss)))))
]

-- Of the past shifts, those shown are the last three in the schedule's order, the last one first.
pub recent-take : (ss : List Shift) → recent ss ≡ take 3 (reverse ss)
unfolding recent
recent-take ss = reverse-drop 3 ss
