-- ===== src/Server/Limits/Window.antt =====
-- The limiter answers as the one that forgets nothing, and how many requests it lets pass.
use mathlib.Core.Path.{subst}
use native.Mathlib.Nat.{le_refl}
use starbies_schedule_sync.Base.{
  ℕ, ◌+◌, ◌≤◌, ltb, leb, ◌≡◌, inl, inr, refl, sym, ap, ◌∙◌, String, Bool, true, false, ◌&&◌,
  Bool-cases, Option, none, some, List, [], ◌∷◌, ◌++◌, length, or_else, if◌then◌else◌, str_eq, All,
  arith, eq_iff,
}
use starbies_schedule_sync.Server.Limits.{
  Requests, no_requests, Event, asked, swept, Answer, prune, room, admit, allow, all_stale, keep,
  sweep, step, run,
}
use starbies_schedule_sync.Server.Limits.Reference.{
  IsOrdered, IsAscending, one_if, recent, answers, prune-prune, prune-All, prune-IsAscending,
  All-append, IsAscending-append, prune-append, last-prune,
}

All-later :
    (clock now : ℕ) (ts : List ℕ) → clock ≤ now → All (λ u. u ≤ clock) ts → All (λ u. u ≤ now) ts
All-later clock now [] h a = tt
All-later clock now (t ∷ ts) h a = (omega (arith, a.0), All-later clock now ts h (a.1))

module _ (window limit : ℕ) where
  -- The times under a key, at a moment, are in order, past, and as many as the key's answers tell.
  record Agrees (key : String) (clock : ℕ) (ts : List ℕ) (log : List Answer) : Type 0 where
    ascending : IsAscending ts
    past : All (λ u. u ≤ clock) ts
    counts : (now : ℕ) → clock ≤ now → recent window now key log ≡ length (prune window now ts)

  admit-Agrees :
      (key : String) (clock now : ℕ) (ts : List ℕ) (log : List Answer)
      → clock ≤ now
      → Agrees key clock ts log
      → (b : Bool) → room limit (prune window now ts) ≡ b
      → Agrees key now
          (if b then prune window now ts ++ now ∷ [] else prune window now ts)
          (record { time = now; key = key; allowed = b } ∷ log)
  admit-Agrees key clock now ts log h a true e =
      let kept = prune window now ts in
      let past' = prune-All window (λ u. u ≤ now) now ts (All-later clock now ts h (a.past)) in
      let self : str_eq key key ≡ true = (eq_iff key key).1 refl in
      record {
        ascending =
            IsAscending-append kept now (prune-IsAscending window now ts (a.ascending)) past';
        past = All-append (λ u. u ≤ now) kept now past' (le_refl now);
        counts = λ later k. rw self (
            ground (
              arith,
              a.counts later,
              prune-append window later kept now past',
              prune-prune window now later ts k,
            ));
      }
  admit-Agrees key clock now ts log h a false e = record {
    ascending = prune-IsAscending window now ts (a.ascending);
    past = prune-All window (λ u. u ≤ now) now ts (All-later clock now ts h (a.past));
    counts = λ later k. ground (arith, a.counts later, prune-prune window now later ts k);
  }

  -- A moment later, and with an answer for another key.
  Agrees-later :
      (key : String) (clock now : ℕ) (ts : List ℕ) (log : List Answer)
      → clock ≤ now
      → Agrees key clock ts log
      → Agrees key now ts log
  Agrees-later key clock now ts log h a = record {
    ascending = a.ascending;
    past = All-later clock now ts h (a.past);
    counts = λ later k. a.counts later (omega arith);
  }

  Agrees-other :
      (key : String) (clock : ℕ) (ts : List ℕ) (log : List Answer) (answer : Answer)
      → str_eq answer.key key ≡ false
      → Agrees key clock ts log
      → Agrees key clock ts (answer ∷ log)
  Agrees-other key clock ts log answer e a = record {
    ascending = a.ascending;
    past = a.past;
    counts = λ now k. ground (arith, a.counts now k);
  }

  forgotten :
      (key : String) (clock now : ℕ) (ts : List ℕ) (log : List Answer)
      → clock ≤ now
      → Agrees key clock ts log
      → all_stale window now ts ≡ true
      → Agrees key now [] log
  unfolding prune
  forgotten key clock now ts log h a e = record {
    ascending = tt;
    past = tt;
    counts = λ later k.
        let stale : all_stale window later ts ≡ true = ground arith in
        a.counts later (omega arith) ∙ ap length (last-prune window later ts (a.ascending) stale);
  }

  keep-Agrees :
      (key : String) (clock now : ℕ) (ts : Option (List ℕ)) (log : List Answer)
      → clock ≤ now
      → Agrees key clock (or_else ts []) log
      → Agrees key now (or_else (keep window now ts) []) log
  keep-Agrees key clock now none log h a = Agrees-later key clock now [] log h a
  keep-Agrees key clock now (some ts) log h a = elim (Bool-cases (all_stale window now ts)) [
    | inl e ↦ rw e (forgotten key clock now ts log h a e)
    | inr e ↦ rw e (Agrees-later key clock now ts log h a)
  ]

  abbrev AgreesAll : ℕ → Requests → List Answer → Type 0
  AgreesAll clock s log = (key : String) → Agrees key clock (or_else (s key) []) log

  allow-AgreesAll :
      (clock now : ℕ) (k : String) (s : Requests) (log : List Answer)
      → clock ≤ now
      → AgreesAll clock s log
      → AgreesAll now
          (step window limit (asked now k) (s, log)).0
          (step window limit (asked now k) (s, log)).1
  unfolding step allow admit
  allow-AgreesAll clock now k s log h a key = elim (Bool-cases (str_eq k key)) [
    | inl e ↦
        let old = or_else (s k) [] in
        let kept = prune window now old in
        let log' = record { time = now; key = k; allowed = room limit kept } ∷ log in
        let new = if room limit kept then kept ++ now ∷ [] else kept in
        rw e (
          subst (λ j. Agrees j now new log') ((eq_iff k key).0 e)
            (admit-Agrees k clock now old log h (a k) (room limit kept) refl))
    | inr e ↦ rw e (
        Agrees-other key now (or_else (s key) []) log _ e
          (Agrees-later key clock now (or_else (s key) []) log h (a key)))
  ]

  run-answers :
      (es : List Event) (clock : ℕ) (s : Requests) (log : List Answer)
      → IsOrdered clock es
      → AgreesAll clock s log
      → (run window limit es (s, log)).1 ≡ answers window limit es log
  unfolding run step allow admit sweep
  run-answers [] clock s log o a = refl
  run-answers (asked now key ∷ es) clock s log o a =
      let old = or_else (s key) [] in
      let answer : Bool → Answer = λ b. record { time = now; key = key; allowed = b } in
      let same : room limit (prune window now old) ≡ ltb (recent window now key log) limit =
        ap (λ n. ltb n limit) (sym ((a key).counts now (o.0))) in
      run-answers es now _ _ (o.1) (allow-AgreesAll clock now key s log (o.0) a)
      ∙ ap (λ b. answers window limit es (answer b ∷ log)) same
  run-answers (swept now ∷ es) clock s log o a =
      run-answers es now _ _ (o.1) (λ key. keep-Agrees key clock now (s key) log (o.0) (a key))

  -- After any history of requests and sweeps, with a clock that does not run backwards, the limiter
  -- has given the answers of one that forgets nothing, that never sweeps, and that lets a request pass
  -- when fewer than `limit` of the key's requests have passed within the window before it.
  pub run-eq-answers :
      (es : List Event)
      → IsOrdered 0 es
      → (run window limit es (no_requests, [])).1 ≡ answers window limit es []
  run-eq-answers es o =
      run-answers es 0 no_requests [] o
        (λ key. record { ascending = tt; past = tt; counts = λ now h. unfold prune in refl })

module _ (window limit : ℕ) where
  -- How many requests of the key pass from a time on until the window after it is over.
  abbrev pub passes : ℕ → String → List Answer → ℕ
  passes from key [] = 0
  passes from key (a ∷ log) =
      one_if (a.allowed && (str_eq a.key key && (leb from a.time && leb a.time (from + window))))
      + passes from key log

  passes-recent :
      (from now : ℕ) (key : String) (log : List Answer)
      → now ≤ from + window
      → passes from key log ≤ recent window now key log
  passes-recent from now key [] h = omega arith
  passes-recent from now key (a ∷ log) h = ground (arith, passes-recent from now key log h)

  passes-admitted :
      (from now : ℕ) (key k : String) (log : List Answer)
      → passes from key log ≤ limit
      → passes from key
          (record { time = now; key = k; allowed = ltb (recent window now k log) limit } ∷ log)
        ≤ limit
  passes-admitted from now key k log h = elim (Bool-cases (str_eq k key)) [
    | inl e ↦
        let admitted : String → Answer =
          λ j. record { time = now; key = j; allowed = ltb (recent window now j log) limit } in
        subst (λ j. passes from key (admitted j ∷ log) ≤ limit) (sym ((eq_iff k key).0 e))
          (ground (arith, passes-recent from now key log))
    | inr e ↦ ground arith
  ]

  passes-answers :
      (from : ℕ) (key : String) (es : List Event) (log : List Answer)
      → passes from key log ≤ limit
      → passes from key (answers window limit es log) ≤ limit
  passes-answers from key [] log h = h
  passes-answers from key (asked now k ∷ es) log h =
      passes-answers from key es _ (passes-admitted from now key k log h)
  passes-answers from key (swept now ∷ es) log h = passes-answers from key es log h

  -- In no window, whenever it begins and with both its ends, do more than `limit` requests of a key
  -- pass, if the clock does not run backwards.
  pub passes-run :
      (es : List Event) (from : ℕ) (key : String)
      → IsOrdered 0 es
      → passes from key (run window limit es (no_requests, [])).1 ≤ limit
  passes-run es from key o =
      rw (run-eq-answers window limit es o) (passes-answers from key es [] (omega arith))
