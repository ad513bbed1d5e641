-- ===== src/Server/Tables.antt =====
-- A table of SQLite as a list of rows, with the statements that the server runs on it.
pub mod Order
use mathlib.Core.Path.{subst}
use starbies_schedule_sync.Base.{
  ◌≡◌, refl, sym, ◌∙◌, ap, Bool, true, false, Bool-cases, inl, inr, Option, none, some, List, [],
  ◌∷◌, ◌++◌, All, if_either, if◌then◌else◌, arith,
}

-- `SELECT … WHERE`, of which the first row is read
unfoldable pub select {ℓ} : {A : Type ℓ} → (A → Bool) → List A → Option A
select test [] = none
select test (x ∷ xs) = if test x then some x else select test xs

-- `UPDATE … SET … WHERE`
unfoldable pub update {ℓ} : {A : Type ℓ} → (A → Bool) → (A → A) → List A → List A
update test f [] = []
update test f (x ∷ xs) = (if test x then f x else x) ∷ update test f xs

-- `DELETE … WHERE`
unfoldable pub delete {ℓ} : {A : Type ℓ} → (A → Bool) → List A → List A
delete test [] = []
delete test (x ∷ xs) = let rest = delete test xs in if test x then rest else x ∷ rest

module _ {ℓ κ} {A : Type ℓ} (P : A → Type κ) where
  pub All-map : {Q : A → Type κ} (xs : List A) → ((x : A) → P x → Q x) → All P xs → All Q xs
  All-map [] k a = tt
  All-map (x ∷ xs) k a = (k x (a.0), All-map xs k (a.1))

  pub update-All :
      (test : A → Bool) (f : A → A) (xs : List A)
      → ((x : A) → P x → P (f x))
      → All P xs
      → All P (update test f xs)
  unfolding update
  update-All test f [] k a = tt
  update-All test f (x ∷ xs) k a =
      (if_either P (test x) (k x (a.0)) (a.0), update-All test f xs k (a.1))

  pub delete-All : (test : A → Bool) (xs : List A) → All P xs → All P (delete test xs)
  unfolding delete
  delete-All test [] a = tt
  delete-All test (x ∷ xs) a =
      if_either (All P) (test x) (delete-All test xs (a.1)) (a.0, delete-All test xs (a.1))

  -- What is left of a table has not passed the test.
  pub delete-All-left :
      {Q : A → Type κ} (test : A → Bool) (xs : List A)
      → ((x : A) → test x ≡ false → P x → Q x)
      → All P xs
      → All Q (delete test xs)
  unfolding delete
  delete-All-left test [] k a = tt
  delete-All-left test (x ∷ xs) k a = elim (Bool-cases (test x)) [
    | inl e ↦ rw e (delete-All-left test xs k (a.1))
    | inr e ↦ rw e (k x e (a.0), delete-All-left test xs k (a.1))
  ]

  pub append-All : (xs : List A) (x : A) → All P xs → P x → All P (xs ++ x ∷ [])
  append-All [] x a p = (p, tt)
  append-All (y ∷ xs) x a p = (a.0, append-All xs x (a.1) p)

  -- The row that is read has passed the test.
  pub select-All :
      (test : A → Bool) (xs : List A) (x : A)
      → All P xs
      → select test xs ≡ some x
      → P x × (test x ≡ true)
  unfolding select
  select-All test [] x a h = absurd cc
  select-All test (y ∷ xs) x a h = elim (Bool-cases (test y)) [
    | inl e ↦
        let same : y ≡ x = ground arith in (subst P same (a.0), subst (λ z. test z ≡ true) same e)
    | inr e ↦ select-All test xs x (a.1) (ground arith)
  ]

module _ {ℓ} {A : Type ℓ} (test : A → Bool) where
  pub select-append :
      (xs : List A) (x y : A) → select test xs ≡ some x → select test (xs ++ y ∷ []) ≡ some x
  unfolding select
  select-append [] x y h = absurd cc
  select-append (z ∷ xs) x y h = ground (arith, select-append xs x y)

  pub select-append_last :
      (xs : List A) (y : A)
      → select test xs ≡ none
      → test y ≡ true
      → select test (xs ++ y ∷ []) ≡ some y
  unfolding select
  select-append_last [] y h k = rw k refl
  select-append_last (z ∷ xs) y h k = ground (arith, select-append_last xs y)

  pub select-passes : (xs : List A) (x : A) → select test xs ≡ some x → test x ≡ true
  unfolding select
  select-passes [] x h = absurd cc
  select-passes (y ∷ xs) x h = elim (Bool-cases (test y)) [
    | inl e ↦ let same : y ≡ x = ground arith in sym (ap test same) ∙ e
    | inr e ↦ select-passes xs x (ground arith)
  ]

  -- An update that keeps the test finds the same row, updated.
  pub select-update :
      (other : A → Bool) (f : A → A) (xs : List A) (x : A)
      → ((x : A) → test (f x) ≡ test x)
      → select test xs ≡ some x
      → select test (update other f xs) ≡ some (if other x then f x else x)
  unfolding select update
  select-update other f [] x k h = absurd cc
  select-update other f (y ∷ xs) x k h =
      let same : test (if other y then f y else y) ≡ test y =
        if_either (λ z. test z ≡ test y) (other y) (k y) refl in
      elim (Bool-cases (test y)) [
        | inl e ↦
            let found : y ≡ x = ground arith in
            rw (same, e) (ap (λ z. some (if other z then f z else z)) found)
        | inr e ↦ rw (same, e) (select-update other f xs x k (ground arith))
      ]

  -- Rows that fail another test stay.
  pub select-delete :
      (other : A → Bool) (xs : List A)
      → ((x : A) → test x ≡ true → other x ≡ false)
      → select test (delete other xs) ≡ select test xs
  unfolding select delete
  select-delete other [] k = refl
  select-delete other (x ∷ xs) k = ground (arith, k x, select-delete other xs k)

  -- No row passes the test where none is found.
  pub select-none : (xs : List A) → select test xs ≡ none → All (λ x. test x ≡ false) xs
  unfolding select
  select-none [] h = tt
  select-none (x ∷ xs) h = (ground arith, select-none xs (ground arith))
