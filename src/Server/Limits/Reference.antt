-- ===== src/Server/Limits/Reference.antt =====
-- A limiter that forgets nothing, and what the limiter has in common with it.
use starbies_schedule_sync.Base.{
  ℕ, ◌+◌, ◌≤◌, ltb, ◌≡◌, refl, String, Bool, true, false, ◌&&◌, not, List, [], ◌∷◌, ◌++◌, length,
  length-append, str_eq, All, if_either, arith,
}
use starbies_schedule_sync.Server.Limits.{
  Event, asked, swept, Answer, last, is_stale, prune, all_stale,
}

-- Each time is no earlier than the one before it, the first no earlier than `clock`.
abbrev pub IsOrdered : ℕ → List Event → Type 0
IsOrdered clock [] = Unit
IsOrdered clock (asked now key ∷ es) = (clock ≤ now) × IsOrdered now es
IsOrdered clock (swept now ∷ es) = (clock ≤ now) × IsOrdered now es

abbrev pub IsAscending : List ℕ → Type 0
IsAscending [] = Unit
IsAscending (t ∷ ts) = All (λ u. t ≤ u) ts × IsAscending ts

abbrev pub one_if : Bool → ℕ
one_if true = 1
one_if false = 0

pub All-append :
    (P : ℕ → Type 0) (ts : List ℕ) (now : ℕ) → All P ts → P now → All P (ts ++ now ∷ [])
All-append P [] now a p = (p, tt)
All-append P (t ∷ ts) now a p = (a.0, All-append P ts now (a.1) p)

pub IsAscending-append :
    (ts : List ℕ) (now : ℕ) → IsAscending ts → All (λ u. u ≤ now) ts → IsAscending (ts ++ now ∷ [])
IsAscending-append [] now a h = (tt, tt)
IsAscending-append (t ∷ ts) now a h =
    (All-append (λ u. t ≤ u) ts now (a.0) (h.0), IsAscending-append ts now (a.1) (h.1))

module _ (window : ℕ) where
  -- How many of the answers let the key pass within the window before `now`.
  abbrev pub recent : ℕ → String → List Answer → ℕ
  recent now key [] = 0
  recent now key (a ∷ log) =
      one_if (a.allowed && (str_eq a.key key && not (is_stale window now a.time)))
      + recent now key log

  pub prune-prune :
      (now later : ℕ) (ts : List ℕ)
      → now ≤ later
      → prune window later (prune window now ts) ≡ prune window later ts
  unfolding prune
  prune-prune now later [] h = refl
  prune-prune now later (t ∷ ts) h = ground (arith, prune-prune now later ts h)

  pub prune-All : (P : ℕ → Type 0) (now : ℕ) (ts : List ℕ) → All P ts → All P (prune window now ts)
  unfolding prune
  prune-All P now [] a = tt
  prune-All P now (t ∷ ts) a =
      if_either (All P) (is_stale window now t) (prune-All P now ts (a.1)) a

  pub prune-IsAscending :
      (now : ℕ) (ts : List ℕ) → IsAscending ts → IsAscending (prune window now ts)
  unfolding prune
  prune-IsAscending now [] a = tt
  prune-IsAscending now (t ∷ ts) a =
      if_either IsAscending (is_stale window now t) (prune-IsAscending now ts (a.1)) a

  pub prune-append :
      (now : ℕ) (ts : List ℕ) (t : ℕ)
      → All (λ u. u ≤ t) ts
      → length (prune window now (ts ++ t ∷ []))
        ≡ one_if (not (is_stale window now t)) + length (prune window now ts)
  unfolding prune
  prune-append now [] t h = ground arith
  prune-append now (u ∷ ts) t h =
      ground (arith, prune-append now ts t (h.1), length-append ts (t ∷ []))

  pub last-prune :
      (now : ℕ) (ts : List ℕ)
      → IsAscending ts
      → all_stale window now ts ≡ true
      → prune window now ts ≡ []
  unfolding prune last
  last-prune now [] a h = refl
  last-prune now (t ∷ []) a h = ground arith
  last-prune now (t ∷ u ∷ ts) a h =
      let first : t ≤ u = a.0.0 in
      let h' : all_stale window now (u ∷ ts) ≡ true = ground arith in
      ground (arith, last-prune now (u ∷ ts) (a.1) h')

module _ (window limit : ℕ) where
  -- The answers to a history if none is forgotten.
  abbrev pub answers : List Event → List Answer → List Answer
  answers [] log = log
  answers (asked now key ∷ es) log =
      answers es
        (record { time = now; key = key; allowed = ltb (recent window now key log) limit } ∷ log)
  answers (swept now ∷ es) log = answers es log
