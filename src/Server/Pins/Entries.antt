-- ===== src/Server/Pins/Entries.antt =====
-- One entry of the store in a history: what each operation does to it, and where it comes from.
use starbies_schedule_sync.Base.{
  ℕ, ◌+◌, ◌<◌, ◌≤◌, ◌≡◌, ◌⊎◌, inl, inr, refl, ◌∙◌, ap, String, Bool, false, Bool-cases, Option,
  none, some, List, [], ◌∷◌, ◌++◌, All, if◌then◌else◌, str_eq, arith, eq_iff, put,
}
use starbies_schedule_sync.Server.Pins.{
  pin_expiry, max_attempts, PinEntry, PinStore, check, keep_fresh, clean_up, Event, stored,
  verified, ticked, store, verify, step, run,
}

-- The operations as one entry sees them.
abbrev on_entry : Bool → Option PinEntry → Option PinEntry → Option PinEntry
on_entry mine e' e = if mine then e' else e

abbrev pub time_of : Event → ℕ
time_of (stored now email pin) = now
time_of (verified now email pin) = now
time_of (ticked now) = now

abbrev pub IsBy : ℕ → Event → Type 0
IsBy now ev = time_of ev ≤ now

-- `e'` is `e` after so many wrong checks.
abbrev pub IsWorn : PinEntry → ℕ → PinEntry → Type 0
IsWorn e n e' = (e'.pin ≡ e.pin) × (e'.expires_at ≡ e.expires_at) × (e'.attempts ≡ e.attempts + n)

abbrev pub fresh : ℕ → String → PinEntry
fresh now pin = record { pin = pin; attempts = 0; expires_at = now + pin_expiry }

module _ (to_lower : String → String) (key : String) where
  abbrev pub concerns : String → Bool
  concerns email = str_eq (to_lower email) key

  unfoldable pub step_entry : Event → Option PinEntry → Option PinEntry
  step_entry (stored now email pin) e =
      on_entry (concerns email)
        (some (record { pin = pin; attempts = 0; expires_at = now + pin_expiry })) e
  step_entry (verified now email pin) e = on_entry (concerns email) (check now pin e).1 e
  step_entry (ticked now) e = keep_fresh now e

  unfoldable pub run_entry : List Event → Option PinEntry → Option PinEntry
  run_entry [] e = e
  run_entry (ev ∷ evs) e = run_entry evs (step_entry ev e)

  on_entry-check :
      (now : ℕ) (email pin : String) (s : PinStore)
      → put (to_lower email) (check now pin (s (to_lower email))).1 s key
        ≡ on_entry (concerns email) (check now pin (s key)).1 (s key)
  on_entry-check now email pin s = elim (Bool-cases (concerns email)) [
    | inl h ↦ let e : to_lower email ≡ key = (eq_iff (to_lower email) key).0 h in rw (h, e) refl
    | inr h ↦ rw h refl
  ]

  step-entry : (ev : Event) (s : PinStore) → step to_lower ev s key ≡ step_entry ev (s key)
  unfolding step step_entry store verify clean_up
  step-entry (stored now email pin) s = refl
  step-entry (verified now email pin) s = on_entry-check now email pin s
  step-entry (ticked now) s = refl

  pub run-entry : (evs : List Event) (s : PinStore) → run to_lower evs s key ≡ run_entry evs (s key)
  unfolding run run_entry
  run-entry [] s = refl
  run-entry (ev ∷ evs) s = run-entry evs (step to_lower ev s) ∙ ap (run_entry evs) (step-entry ev s)

  -- No new PIN for the key, and no check of it with this one.
  abbrev pub Spares : String → Event → Type 0
  Spares pin (stored now email p) = concerns email ≡ false
  Spares pin (verified now email p) = (concerns email ≡ false) ⊎ (str_eq p pin ≡ false)
  Spares pin (ticked now) = Unit

  abbrev pub count : Event → ℕ
  count (verified now email p) = if concerns email then 1 else 0
  count _ = 0

  -- How many checks there are for the key.
  abbrev pub checks : List Event → ℕ
  checks [] = 0
  checks (ev ∷ evs) = count ev + checks evs

  abbrev IsKept : Event → Option PinEntry → PinEntry → Type 0
  IsKept ev e e' = (e0 : PinEntry) × (e ≡ some e0) × Spares e0.pin ev × IsWorn e0 (count ev) e'

  abbrev IsStored : Event → PinEntry → Type 0
  IsStored ev e' =
      (now : ℕ) × (email : String) × (pin : String) × (ev ≡ stored now email pin)
      × (to_lower email ≡ key)
      × (e' ≡ fresh now pin)

  check-back :
      (now : ℕ) (pin : String) (e : Option PinEntry) (e' : PinEntry)
      → (check now pin e).1 ≡ some e'
      → e'.attempts < max_attempts
      → (e0 : PinEntry) × (e ≡ some e0) × (str_eq pin e0.pin ≡ false) × IsWorn e0 1 e'
  unfolding check
  check-back now pin none e' h k = absurd cc
  check-back now pin (some e) e' h k =
      (e, refl, ground arith, (ground arith, ground arith, ground arith))

  step_entry-back :
      (ev : Event) (e : Option PinEntry) (e' : PinEntry)
      → step_entry ev e ≡ some e'
      → e'.attempts < max_attempts
      → IsStored ev e' ⊎ IsKept ev e e'
  unfolding step_entry keep_fresh
  step_entry-back (stored now email pin) e e' h k = elim (Bool-cases (concerns email)) [
    | inl c ↦ inl (now, email, pin, refl, (eq_iff (to_lower email) key).0 c, ground arith)
    | inr c ↦ inr (e', ground arith, c, (refl, refl, omega arith))
  ]
  step_entry-back (verified now email pin) e e' h k = elim (Bool-cases (concerns email)) [
    | inl c ↦
        let (e0, p, wrong, q) = check-back now pin e e' (ground arith) k in
        inr (e0, p, inr wrong, rw c q)
    | inr c ↦ inr (e', ground arith, inl c, (refl, refl, rw c (omega arith)))
  ]
  step_entry-back (ticked now) none e' h k = absurd cc
  step_entry-back (ticked now) (some e) e' h k =
      inr (e, refl, tt, (ground arith, ground arith, ground arith))

  abbrev pub IsStoredIn : List Event → PinEntry → Type 0
  IsStoredIn evs e' =
      (before after : List Event) × (at : ℕ) × (email pin : String) × (evs
        ≡ before ++ stored at email pin ∷ after)
      × (to_lower email ≡ key)
      × All (Spares pin) after
      × IsWorn (fresh at pin) (checks after) e'

  abbrev pub IsKeptIn : List Event → Option PinEntry → PinEntry → Type 0
  IsKeptIn evs e e' =
      (e0 : PinEntry) × (e ≡ some e0) × All (Spares e0.pin) evs × IsWorn e0 (checks evs) e'

  later :
      (ev : Event) (evs : List Event) (e : Option PinEntry) (e1 e' : PinEntry)
      → All (Spares e1.pin) evs
      → IsWorn e1 (checks evs) e'
      → IsStored ev e1 ⊎ IsKept ev e e1
      → IsStoredIn (ev ∷ evs) e' ⊎ IsKeptIn (ev ∷ evs) e e'
  later ev evs e e1 e' spared worn (inl (at, email, pin, p, mine, q)) =
      let spared' = rw q at spared in
      let worn' = rw q at worn in
      inl ([], evs, at, email, pin, ap (λ x. x ∷ evs) p, mine, spared', worn')
  later ev evs e e1 e' spared worn (inr (e0, p, spares, q)) =
      let spared' = rw (q.0) at spared in
      inr (e0, p, (spares, spared'), (worn.0 ∙ q.0, worn.1 ∙ q.1, omega (arith, worn.2, q.2)))

  -- An entry that still has attempts left comes from a store of the history, or was there before.
  pub run_entry-back :
      (evs : List Event) (e : Option PinEntry) (e' : PinEntry)
      → run_entry evs e ≡ some e'
      → e'.attempts < max_attempts
      → IsStoredIn evs e' ⊎ IsKeptIn evs e e'
  unfolding run_entry
  run_entry-back [] e e' h k = inr (e', h, tt, (refl, refl, omega arith))
  run_entry-back (ev ∷ evs) e e' h k = elim (run_entry-back evs (step_entry ev e) e' h k) [
    | inl (before, after, at, email, pin, split, mine, spared, worn) ↦
        inl (ev ∷ before, after, at, email, pin, ap (λ t. ev ∷ t) split, mine, spared, worn)
    | inr (e1, p, spared, worn) ↦
        later ev evs e e1 e' spared worn (step_entry-back ev e e1 p (omega (arith, worn.2)))
  ]
