-- ===== src/Server/Tables/Order.antt =====
-- The rows that a statement selects, the newest first. Rows of the same time stay in the order of
-- the table, which SQLite leaves open.
use starbies_schedule_sync.Base.{
  ℕ, ltb, ◌≡◌, ◌↔◌, refl, ap, ◌∙◌, if_either, Bool, true, false, Bool-cases, inl, inr, List, [],
  ◌∷◌, All, Has, if◌then◌else◌, arith,
}
use starbies_schedule_sync.Server.Tables.{update}

-- `SELECT … WHERE`
unfoldable pub select_all {ℓ} : {A : Type ℓ} → (A → Bool) → List A → List A
select_all test [] = []
select_all test (x ∷ xs) = let rest = select_all test xs in if test x then x ∷ rest else rest

module _ {A : Type 0} (time : A → ℕ) where
  unfoldable pub insert : A → List A → List A
  insert x [] = x ∷ []
  insert x (y ∷ ys) =
      let rest = insert x ys in if ltb (time x) (time y) then y ∷ rest else x ∷ y ∷ ys

  -- `ORDER BY … DESC`
  unfoldable pub newest : List A → List A
  unfolding insert
  newest [] = []
  newest (x ∷ xs) = insert x (newest xs)

  insert-Has : (z x : A) (xs : List A) → Has z (insert x xs) ↔ Has z (x ∷ xs)
  unfolding insert
  insert-Has z x [] = (λ h. h, λ h. h)
  insert-Has z x (y ∷ ys) =
      let (to, from) = insert-Has z x ys in
      elim (Bool-cases (ltb (time x) (time y))) [
        | inl e ↦ rw e (
          λ h. elim h [
            | inl same ↦ inr (inl same)
            | inr k ↦ elim (to k) [ inl same ↦ inl same | inr m ↦ inr (inr m) ]
          ],
          λ h. elim h [
            | inl same ↦ inr (from (inl same))
            | inr k ↦ elim k [ inl same ↦ inl same | inr m ↦ inr (from (inr m)) ]
          ],
        )
        | inr e ↦ rw e (λ h. h, λ h. h)
      ]

  pub newest-Has : (z : A) (xs : List A) → Has z (newest xs) ↔ Has z xs
  unfolding newest
  newest-Has z [] = (λ h. h, λ h. h)
  newest-Has z (x ∷ xs) =
      let (to, from) = newest-Has z xs in
      let (to', from') = insert-Has z x (newest xs) in
      (
        λ h. elim (to' h) [ inl same ↦ inl same | inr k ↦ inr (to k) ],
        λ h. from' (elim h [ inl same ↦ inl same | inr k ↦ inr (from k) ]),
      )

  -- No row is newer than one before it.
  abbrev pub IsDescending : List A → Type 0
  IsDescending [] = Unit
  IsDescending (x ∷ xs) = All (λ y. ltb (time x) (time y) ≡ false) xs × IsDescending xs

  All-insert : (P : A → Type 0) (x : A) (xs : List A) → P x → All P xs → All P (insert x xs)
  unfolding insert
  All-insert P x [] p a = (p, tt)
  All-insert P x (y ∷ ys) p a = elim (Bool-cases (ltb (time x) (time y))) [
    | inl e ↦ rw e (a.0, All-insert P x ys p (a.1))
    | inr e ↦ rw e (p, a)
  ]

  All-not_newer :
      (x y : A) (ys : List A)
      → ltb (time x) (time y) ≡ false
      → All (λ z. ltb (time y) (time z) ≡ false) ys
      → All (λ z. ltb (time x) (time z) ≡ false) ys
  All-not_newer x y [] h a = tt
  All-not_newer x y (z ∷ zs) h a = (ground (arith, a.0), All-not_newer x y zs h (a.1))

  insert-IsDescending : (x : A) (xs : List A) → IsDescending xs → IsDescending (insert x xs)
  unfolding insert
  insert-IsDescending x [] a = (tt, tt)
  insert-IsDescending x (y ∷ ys) a = elim (Bool-cases (ltb (time x) (time y))) [
    | inl e ↦ rw e (
      All-insert (λ z. ltb (time y) (time z) ≡ false) x ys (ground arith) (a.0),
      insert-IsDescending x ys (a.1),
    )
    | inr e ↦ rw e ((e, All-not_newer x y ys e (a.0)), a)
  ]

  pub newest-IsDescending : (xs : List A) → IsDescending (newest xs)
  unfolding newest
  newest-IsDescending [] = tt
  newest-IsDescending (x ∷ xs) = insert-IsDescending x (newest xs) (newest-IsDescending xs)

pub select_all-Has :
    {A : Type 0} (test : A → Bool) (xs : List A) (z : A)
    → Has z (select_all test xs) ↔ (Has z xs × (test z ≡ true))
unfolding select_all
select_all-Has test [] z = (λ h. absurd h, λ h. absurd (h.0))
select_all-Has test (x ∷ xs) z =
    let (to, from) = select_all-Has test xs z in
    elim (Bool-cases (test x)) [
      | inl e ↦ rw e (
        λ h. elim h [ inl same ↦ (inl same, rw same e) | inr k ↦ (inr (to k).0, (to k).1) ],
        λ h. elim h.0 [ inl same ↦ inl same | inr k ↦ inr (from (k, h.1)) ],
      )
      | inr e ↦ rw e (
        λ h. (inr (to h).0, (to h).1),
        λ h. elim h.0 [ inl same ↦ absurd (cc (rw same at h.1, e)) | inr k ↦ from (k, h.1) ],
      )
    ]

-- An update that keeps the test and the times keeps the selection and its order.
module _ {A : Type 0} (time : A → ℕ) (other : A → Bool) (f : A → A) where
  abbrev updated : A → A
  updated x = if other x then f x else x

  select_all-update :
      (test : A → Bool) (xs : List A)
      → ((x : A) → test (f x) ≡ test x)
      → select_all test (update other f xs) ≡ update other f (select_all test xs)
  unfolding select_all update
  select_all-update test [] k = refl
  select_all-update test (x ∷ xs) k =
      let same : test (updated x) ≡ test x =
        if_either (λ y. test y ≡ test x) (other x) (k x) refl in
      let rest = select_all-update test xs k in
      elim (Bool-cases (test x)) [
        | inl e ↦ rw (same, e, rest) refl
        | inr e ↦ rw (same, e, rest) refl
      ]

  insert-update :
      (x : A) (xs : List A)
      → ((x : A) → time (f x) ≡ time x)
      → insert time (updated x) (update other f xs) ≡ update other f (insert time x xs)
  unfolding insert update
  insert-update x [] k = refl
  insert-update x (y ∷ ys) k =
      let kept = λ (z : A). if_either (λ w. time w ≡ time z) (other z) (k z) refl in
      let same : time (updated x) ≡ time x = kept x in
      let same' : time (updated y) ≡ time y = kept y in
      elim (Bool-cases (ltb (time x) (time y))) [
        | inl e ↦ rw (same, same', e, insert-update x ys k) refl
        | inr e ↦ rw (same, same', e) refl
      ]

  newest-update :
      (xs : List A)
      → ((x : A) → time (f x) ≡ time x)
      → newest time (update other f xs) ≡ update other f (newest time xs)
  unfolding newest update
  newest-update [] k = refl
  newest-update (x ∷ xs) k =
      ap (insert time (updated x)) (newest-update xs k) ∙ insert-update x (newest time xs) k

  pub newest-select_all-update :
      (test : A → Bool) (xs : List A)
      → ((x : A) → test (f x) ≡ test x)
      → ((x : A) → time (f x) ≡ time x)
      → newest time (select_all test (update other f xs))
        ≡ update other f (newest time (select_all test xs))
  newest-select_all-update test xs k j =
      ap (newest time) (select_all-update test xs k) ∙ newest-update (select_all test xs) j
