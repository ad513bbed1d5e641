-- ===== src/Server/Calendar/Feed/Order.antt =====
-- Which shifts a query gives, and in which order.
use starbies_schedule_sync.Base.{
  ℕ, ◌≡◌, ◌↔◌, refl, String, Bool, true, false, Bool-cases, inl, inr, List, [], ◌∷◌, All, Has,
  arith, eq_iff,
}
use starbies_schedule_sync.Base.Int.{ltb_ℤ}
use starbies_schedule_sync.Server.Calendar.{Shift}
use starbies_schedule_sync.Server.Calendar.Feed.{
  filter, insert, is_shown, query_user_shifts, sort, week_before,
}

filter-Has :
    (test : Shift → Bool) (shs : List Shift) (sh : Shift)
    → Has sh (filter test shs) ↔ (Has sh shs × (test sh ≡ true))
unfolding filter
filter-Has test [] sh = (λ h. absurd h, λ h. absurd (h.0))
filter-Has test (t ∷ ts) sh =
    let (to, from) = filter-Has test ts sh in
    elim (Bool-cases (test t)) [
      | inl e ↦ rw e (
        λ h. elim h [ inl same ↦ (inl same, rw same e) | inr k ↦ (inr ((to k).0), (to k).1) ],
        λ h. elim (h.0) [ inl same ↦ inl same | inr k ↦ inr (from (k, h.1)) ],
      )
      | inr e ↦ rw e (
        λ h. (inr ((to h).0), (to h).1),
        λ h. elim (h.0) [ inl same ↦ absurd (cc (rw same at (h.1), e)) | inr k ↦ from (k, h.1) ],
      )
    ]

insert-Has : (sh t : Shift) (ts : List Shift) → Has sh (insert t ts) ↔ Has sh (t ∷ ts)
unfolding insert
insert-Has sh t [] = (λ h. h, λ h. h)
insert-Has sh t (u ∷ us) =
    let (to, from) = insert-Has sh t us in
    elim (Bool-cases (ltb_ℤ u.start_time t.start_time)) [
      | inl e ↦ rw e (
        λ h. elim h [
          | inl same ↦ inr (inl same)
          | inr k ↦ elim (to k) [ inl same ↦ inl same | inr m ↦ inr (inr m) ]
        ],
        λ h. elim h [
          | inl same ↦ inr (from (inl same))
          | inr k ↦ elim k [ inl same ↦ inl same | inr m ↦ inr (from (inr m)) ]
        ],
      )
      | inr e ↦ rw e (λ h. h, λ h. h)
    ]

sort-Has : (sh : Shift) (ts : List Shift) → Has sh (sort ts) ↔ Has sh ts
unfolding sort
sort-Has sh [] = (λ h. h, λ h. h)
sort-Has sh (t ∷ ts) =
    let (to, from) = sort-Has sh ts in
    let (to', from') = insert-Has sh t (sort ts) in
    (
      λ h. elim (to' h) [ inl same ↦ inl same | inr k ↦ inr (to k) ],
      λ h. from' (elim h [ inl same ↦ inl same | inr k ↦ inr (from k) ]),
    )

-- No later shift starts earlier.
abbrev pub IsAscending : List Shift → Type 0
IsAscending [] = Unit
IsAscending (sh ∷ shs) = All (λ t. ltb_ℤ t.start_time sh.start_time ≡ false) shs × IsAscending shs

All-insert :
    (P : Shift → Type 0) (t : Shift) (ts : List Shift) → P t → All P ts → All P (insert t ts)
unfolding insert
All-insert P t [] p a = (p, tt)
All-insert P t (u ∷ us) p a = elim (Bool-cases (ltb_ℤ u.start_time t.start_time)) [
  | inl e ↦ rw e (a.0, All-insert P t us p (a.1))
  | inr e ↦ rw e (p, a)
]

All-not_before :
    (sh t : Shift) (ts : List Shift)
    → ltb_ℤ t.start_time sh.start_time ≡ false
    → All (λ u. ltb_ℤ u.start_time t.start_time ≡ false) ts
    → All (λ u. ltb_ℤ u.start_time sh.start_time ≡ false) ts
All-not_before sh t [] h a = tt
All-not_before sh t (u ∷ us) h a = (ground (arith, a.0), All-not_before sh t us h (a.1))

insert-IsAscending : (t : Shift) (ts : List Shift) → IsAscending ts → IsAscending (insert t ts)
unfolding insert
insert-IsAscending t [] a = (tt, tt)
insert-IsAscending t (u ∷ us) a = elim (Bool-cases (ltb_ℤ u.start_time t.start_time)) [
  | inl e ↦ rw e (
    All-insert (λ v. ltb_ℤ v.start_time u.start_time ≡ false) t us (ground arith) (a.0),
    insert-IsAscending t us (a.1),
  )
  | inr e ↦ rw e ((e, All-not_before t u us e (a.0)), a)
]

sort-IsAscending : (ts : List Shift) → IsAscending (sort ts)
unfolding sort
sort-IsAscending [] = tt
sort-IsAscending (t ∷ ts) = insert-IsAscending t (sort ts) (sort-IsAscending ts)

-- The query gives a shift exactly when it is in the table, is the user's and ended less than seven
-- days ago; and the shifts are in the order of their starts.
pub query_user_shifts_lem :
    (now : ℕ) (user_id : String) (shifts : List Shift)
    → ((sh : Shift)
        → Has sh (query_user_shifts now user_id shifts)
          ↔ (Has sh shifts × (sh.user_id ≡ user_id) × (ltb_ℤ (week_before now) sh.end_time ≡ true)))
      × IsAscending (query_user_shifts now user_id shifts)
unfolding query_user_shifts
query_user_shifts_lem now user_id shifts = (
  λ sh.
      let (to, from) = sort-Has sh (filter (is_shown now user_id) shifts) in
      let (to', from') = filter-Has (is_shown now user_id) shifts sh in
      (
        λ h.
            let (k, shown) = to' (to h) in
            (k, (eq_iff sh.user_id user_id).0 (ground arith), ground arith),
        λ (k, mine, soon). from (from' (k, rw ((eq_iff sh.user_id user_id).1 mine, soon) refl)),
      ),
  sort-IsAscending (filter (is_shown now user_id) shifts),
)
