-- ===== src/Server/Accounts/Users.antt =====
-- The ids of the table of users, and the row that `FindOrCreateUser` ends with.
use starbies_schedule_sync.Base.{
  ℕ, ◌≡◌, refl, sym, ap, ◌∙◌, String, Bool, false, Bool-cases, Option-cases, inl, inr, Option, none,
  some, List, [], ◌∷◌, ◌++◌, All, is_some, if_either, if◌then◌else◌, str_eq, arith, eq_iff,
}
use starbies_schedule_sync.Server.Tables.{
  select, update, delete, update-All, All-map, append-All, delete-All, select-All, select-append,
  select-passes, select-none,
}
use starbies_schedule_sync.Server.Accounts.{
  User, Fresh, conflicts, find_or_create_user, has_email, has_id, insert_user, new_user, or_create,
}

pub str_eq_sym : (a b : String) → str_eq a b ≡ str_eq b a
str_eq_sym a b = elim (Bool-cases (str_eq a b)) [
  | inl e ↦ e ∙ sym ((eq_iff b a).1 (sym ((eq_iff a b).0 e)))
  | inr e ↦ elim (Bool-cases (str_eq b a)) [
    | inl f ↦ let e' = (eq_iff a b).1 (sym ((eq_iff b a).0 f)) in absurd cc
    | inr f ↦ e ∙ sym f
  ]
]

abbrev pub HasUniqueIds : List User → Type 0
HasUniqueIds [] = Unit
HasUniqueIds (u ∷ us) = All (λ v. has_id u.id v ≡ false) us × HasUniqueIds us

pub append-HasUniqueIds :
    (us : List User) (u : User)
    → All (λ v. has_id u.id v ≡ false) us
    → HasUniqueIds us
    → HasUniqueIds (us ++ u ∷ [])
append-HasUniqueIds [] u a h = (tt, tt)
append-HasUniqueIds (v ∷ us) u a h = (
  append-All (λ w. has_id v.id w ≡ false) us u (h.0) (str_eq_sym u.id v.id ∙ a.0),
  append-HasUniqueIds us u (a.1) (h.1),
)

pub delete-HasUniqueIds :
    (test : User → Bool) (us : List User) → HasUniqueIds us → HasUniqueIds (delete test us)
unfolding delete
delete-HasUniqueIds test [] h = tt
delete-HasUniqueIds test (u ∷ us) h =
    if_either HasUniqueIds (test u) (delete-HasUniqueIds test us (h.1))
      (delete-All (λ v. has_id u.id v ≡ false) test us (h.0), delete-HasUniqueIds test us (h.1))

pub insert_user-HasUniqueIds :
    (u : User) (us : List User) → HasUniqueIds us → HasUniqueIds (insert_user u us)
insert_user-HasUniqueIds u us h = elim (Option-cases (select (conflicts u) us)) [
  | inl e ↦ rw e (
      append-HasUniqueIds us u
        (All-map (λ v. conflicts u v ≡ false) us (λ v k. ground arith)
          (select-none (conflicts u) us e))
        h)
  | inr (v, e) ↦ rw e h
]

-- With unique ids, a row that some test finds is also the one found by its id.
pub select-has_id :
    (test : User → Bool) (us : List User) (u : User)
    → HasUniqueIds us
    → select test us ≡ some u
    → select (has_id u.id) us ≡ some u
unfolding select
select-has_id test [] u h k = absurd cc
select-has_id test (v ∷ us) u h k = elim (Bool-cases (test v)) [
  | inl e ↦
      let same : v ≡ u = ground arith in
      rw ((eq_iff v.id u.id).1 (ap (λ (w : User). w.id) same)) (ap some same)
  | inr e ↦
      let later : select test us ≡ some u = ground arith in
      let other = (select-All (λ w. has_id v.id w ≡ false) test us u (h.0) later).0 in
      rw (str_eq_sym v.id u.id ∙ other) (select-has_id test us u (h.1) later)
]

pub update-HasUniqueIds :
    (test : User → Bool) (f : User → User) (us : List User)
    → ((u : User) → (f u).id ≡ u.id)
    → HasUniqueIds us
    → HasUniqueIds (update test f us)
unfolding update
update-HasUniqueIds test f [] k h = tt
update-HasUniqueIds test f (u ∷ us) k h =
    let same : (if test u then f u else u).id ≡ u.id =
      if_either (λ (v : User). v.id ≡ u.id) (test u) (k u) refl in
    (
      rw same (update-All (λ v. has_id u.id v ≡ false) test f us (λ v e. rw (k v) e) (h.0)),
      update-HasUniqueIds test f us k (h.1),
    )

module _ (now : ℕ) (email : String) where
  or_create-HasUniqueIds :
      (fresh : Option Fresh) (found : Option User) (us : List User)
      → HasUniqueIds us
      → HasUniqueIds (or_create now email fresh found us).1
  or_create-HasUniqueIds fresh (some u) us h = h
  or_create-HasUniqueIds none none us h = h
  or_create-HasUniqueIds (some f) none us h = insert_user-HasUniqueIds (new_user now email f) us h

  pub find_or_create_user-HasUniqueIds :
      (fresh : Option Fresh) (us : List User)
      → HasUniqueIds us
      → HasUniqueIds (find_or_create_user now email fresh us).1
  unfolding find_or_create_user
  find_or_create_user-HasUniqueIds fresh us =
      or_create-HasUniqueIds fresh (select (has_email email) us) us

  select-or_create :
      (fresh : Option Fresh) (found : Option User) (us : List User) (test : User → Bool) (u : User)
      → select test us ≡ some u
      → select test (or_create now email fresh found us).1 ≡ some u
  select-or_create fresh (some v) us test u h = h
  select-or_create none none us test u h = h
  select-or_create (some f) none us test u h =
      let new = new_user now email f in
      if_either (λ us'. select test us' ≡ some u) (is_some (select (conflicts new) us)) h
        (select-append test us u new h)

  pub select-find_or_create_user :
      (fresh : Option Fresh) (us : List User) (test : User → Bool) (u : User)
      → select test us ≡ some u
      → select test (find_or_create_user now email fresh us).1 ≡ some u
  unfolding find_or_create_user
  select-find_or_create_user fresh us = select-or_create fresh (select (has_email email) us) us

  -- What it returns is a row of the table, found by the email.
  or_create-found :
      (fresh : Option Fresh) (found : Option User) (us : List User) (u : User)
      → found ≡ select (has_email email) us
      → (or_create now email fresh found us).0 ≡ some u
      → select (has_email email) (or_create now email fresh found us).1 ≡ some u
  or_create-found fresh (some v) us u e h = sym e ∙ h
  or_create-found none none us u e h = absurd cc
  or_create-found (some f) none us u e h = h

  pub find_or_create_user-found :
      (fresh : Option Fresh) (us : List User) (u : User)
      → (find_or_create_user now email fresh us).0 ≡ some u
      → select (has_email email) (find_or_create_user now email fresh us).1 ≡ some u
  unfolding find_or_create_user
  find_or_create_user-found fresh us u =
      or_create-found fresh (select (has_email email) us) us u refl

-- A row found by its email has it.
pub select-email :
    (email : String) (us : List User) (u : User)
    → select (has_email email) us ≡ some u
    → u.email ≡ email
select-email email us u h = (eq_iff u.email email).0 (select-passes (has_email email) us u h)
