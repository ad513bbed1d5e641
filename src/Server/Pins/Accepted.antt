-- ===== src/Server/Pins/Accepted.antt =====
-- Which PINs `Verify` accepts.
use mathlib.Core.Path.{subst}
use starbies_schedule_sync.Base.{
  ℕ, ◌+◌, ◌<◌, ◌≤◌, ◌≡◌, ◌↔◌, inl, inr, refl, sym, ◌∙◌, ap, String, true, false, Bool-cases, Option,
  none, some, List, [], ◌∷◌, ◌++◌, All, str_eq, arith, eq_iff,
}
use starbies_schedule_sync.Server.Pins.{
  pin_expiry, max_attempts, PinEntry, new_pin_store, check, keep_fresh, Event, stored, verified,
  ticked, verify, run,
}
use starbies_schedule_sync.Server.Pins.Entries.{
  concerns, step_entry, run_entry, run-entry, Spares, count, checks, IsWorn, fresh, run_entry-back,
  IsBy,
}

module _ (to_lower : String → String) (key : String) where
  abbrev IsSome : Option PinEntry → PinEntry → ℕ → Type 0
  IsSome e e0 n = (e1 : PinEntry) × (e ≡ some e1) × IsWorn e0 n e1

  check-ahead :
      (now : ℕ) (pin : String) (e : PinEntry)
      → now ≤ e.expires_at
      → str_eq pin e.pin ≡ false
      → e.attempts < max_attempts
      → (check now pin (some e)).1 ≡ some (record e { attempts = e.attempts + 1 })
  unfolding check
  check-ahead now pin e h wrong k = ground arith

  step_entry-ahead :
      (ev : Event) (now : ℕ) (e : PinEntry)
      → IsBy now ev
      → now ≤ e.expires_at
      → Spares to_lower key e.pin ev
      → e.attempts + count to_lower key ev ≤ max_attempts
      → IsSome (step_entry to_lower key ev (some e)) e (count to_lower key ev)
  unfolding step_entry keep_fresh
  step_entry-ahead (stored at email pin) now e by h c k = (e, rw c refl, (refl, refl, omega arith))
  step_entry-ahead (ticked at) now e by h c k = (e, ground arith, (refl, refl, omega arith))
  step_entry-ahead (verified at email pin) now e by h (inl c) k =
      (e, rw c refl, rw c (refl, refl, omega arith))
  step_entry-ahead (verified at email pin) now e by h (inr wrong) k =
      elim (Bool-cases (concerns to_lower key email)) [
        | inl c ↦
            let few : e.attempts < max_attempts = omega (arith, rw c at k) in
            let e1 : PinEntry = record e { attempts = e.attempts + 1 } in
            (e1, rw c (check-ahead at pin e (omega arith) wrong few), rw c (refl, refl, refl))
        | inr c ↦ (e, rw c refl, rw c (refl, refl, omega arith))
      ]

  run_entry-ahead :
      (evs : List Event) (now : ℕ) (e : PinEntry)
      → All (IsBy now) evs
      → now ≤ e.expires_at
      → All (Spares to_lower key e.pin) evs
      → e.attempts + checks to_lower key evs ≤ max_attempts
      → IsSome (run_entry to_lower key evs (some e)) e (checks to_lower key evs)
  unfolding run_entry
  run_entry-ahead [] now e by h c k = (e, refl, (refl, refl, omega arith))
  run_entry-ahead (ev ∷ evs) now e by h c k =
      let (e1, p, q) = step_entry-ahead ev now e (by.0) h (c.0) (omega arith) in
      let spared = subst (λ t. All (Spares to_lower key t) evs) (sym q.0) (c.1) in
      let (e2, p2, q2) =
        run_entry-ahead evs now e1 (by.1) (omega (arith, q.1)) spared (omega (arith, q.2)) in
      (
        e2,
        ap (run_entry to_lower key evs) p ∙ p2,
        (q2.0 ∙ q.0, q2.1 ∙ q.1, omega (arith, q.2, q2.2)),
      )

  run_entry-append :
      (before after : List Event) (e : Option PinEntry)
      → run_entry to_lower key (before ++ after) e
        ≡ run_entry to_lower key after (run_entry to_lower key before e)
  unfolding run_entry
  run_entry-append [] after e = refl
  run_entry-append (ev ∷ before) after e =
      run_entry-append before after (step_entry to_lower key ev e)

  All-after :
      (P : Event → Type 0) (before after : List Event) → All P (before ++ after) → All P after
  All-after P [] after a = a
  All-after P (ev ∷ before) after a = All-after P before after (a.1)

  -- When an entry lets a PIN pass.
  abbrev Lets : ℕ → String → Option PinEntry → Type 0
  Lets now pin e =
      (e' : PinEntry) × (e ≡ some e')
      × (str_eq pin e'.pin ≡ true)
      × (now ≤ e'.expires_at)
      × (e'.attempts < max_attempts)

  check-Lets :
      (now : ℕ) (pin : String) (e : Option PinEntry) → (check now pin e).0 ≡ none → Lets now pin e
  unfolding check
  check-Lets now pin none h = absurd cc
  check-Lets now pin (some e) h = (e, refl, ground arith, ground arith, ground arith)

  Lets-check :
      (now : ℕ) (pin : String) (e : Option PinEntry) → Lets now pin e → (check now pin e).0 ≡ none
  unfolding check
  Lets-check now pin e (e', p, right, h, k) = rw p (ground arith)

  abbrev pub IsPending : List Event → ℕ → String → Type 0
  IsPending evs now pin =
      (before after : List Event) × (at : ℕ) × (email : String) × (evs
        ≡ before ++ stored at email pin ∷ after)
      × (to_lower email ≡ key)
      × All (Spares to_lower key pin) after
      × (checks to_lower key after < max_attempts)
      × (now ≤ at + pin_expiry)

  Lets-IsPending :
      (evs : List Event) (now : ℕ) (pin : String)
      → Lets now pin (run_entry to_lower key evs none)
      → IsPending evs now pin
  Lets-IsPending evs now pin (e', p, right, h, k) =
      elim (run_entry-back to_lower key evs none e' p k) [
        | inl (before, after, at, email, pin', split, mine, spared, worn) ↦
            let same : pin' ≡ pin = sym ((eq_iff pin e'.pin).0 right ∙ worn.0) in
            (
              before,
              after,
              at,
              email,
              rw (← same) split,
              mine,
              subst (λ t. All (Spares to_lower key t) after) same spared,
              omega (arith, worn.2),
              omega (arith, worn.1),
            )
        | inr (e0, p, _, _) ↦ absurd cc
      ]

  IsPending-Lets :
      (evs : List Event) (now : ℕ) (pin : String)
      → All (IsBy now) evs
      → IsPending evs now pin
      → Lets now pin (run_entry to_lower key evs none)
  unfolding run_entry step_entry
  IsPending-Lets evs now pin by (before, after, at, email, split, mine, spared, few, h) =
      let entered = (eq_iff (to_lower email) key).1 mine in
      let ev = stored at email pin in
      let by' = All-after (IsBy now) before (ev ∷ after) (rw split at by) in
      let (e, p, q) = run_entry-ahead after now (fresh at pin) (by'.1) h spared (omega arith) in
      let first : step_entry to_lower key ev (run_entry to_lower key before none)
          ≡ some (fresh at pin) =
        rw entered refl in
      (
        e,
        ap (λ t. run_entry to_lower key t none) split
            ∙ run_entry-append before (ev ∷ after) none
            ∙ ap (run_entry to_lower key after) first
            ∙ p,
        (eq_iff pin e.pin).1 (sym q.0),
        omega (arith, q.1),
        omega (arith, q.2),
      )

-- A PIN that is accepted is pending, however the clock has run.
pub verify-IsPending :
    (to_lower : String → String) (evs : List Event) (now : ℕ) (email pin : String)
    → (verify to_lower now email pin (run to_lower evs new_pin_store)).0 ≡ none
    → IsPending to_lower (to_lower email) evs now pin
unfolding verify
verify-IsPending to_lower evs now email pin h =
    let key = to_lower email in
    let same = run-entry to_lower key evs new_pin_store in
    Lets-IsPending to_lower key evs now pin (check-Lets to_lower key now pin _ (rw same at h))

-- After any history, with a clock that does not run backwards, `Verify` accepts a PIN exactly when
-- it is the one that was stored last for that email, in any spelling of its case, at most ten
-- minutes ago, and every check for the email since then, fewer than five, was of another PIN.
pub verify_iff :
    (to_lower : String → String) (evs : List Event) (now : ℕ) (email pin : String)
    → All (IsBy now) evs
    → ((verify to_lower now email pin (run to_lower evs new_pin_store)).0 ≡ none)
      ↔ IsPending to_lower (to_lower email) evs now pin
unfolding verify
verify_iff to_lower evs now email pin by =
    let key = to_lower email in
    let same = run-entry to_lower key evs new_pin_store in
    (
      verify-IsPending to_lower evs now email pin,
      λ p.
          rw same
            (Lets-check to_lower key now pin _ (IsPending-Lets to_lower key evs now pin by p)),
    )
