-- ===== src/Scraper/Page/Polling.antt =====
-- `pollUntil`: its rounds are enough, and when it gives up.
use native.Mathlib.Nat.{le_refl}
use starbies_schedule_sync.Base.{
  ℕ, zero, suc, ◌+◌, ◌-◌, ◌≤◌, ◌<◌, ltb, ◌≡◌, refl, sym, ap, Bool, true, false, Option, none, some,
  arith,
}
use starbies_schedule_sync.Scraper.Script.{
  Settled, value, threw, Run, Script, Outside, ◌>>=◌, continue,
}
use starbies_schedule_sync.Scraper.Script.Progress.{Proceeds-await}
use starbies_schedule_sync.Scraper.Page.{while_time, go_on, poll, delay, poll_until}

module _ {W A : Type 0} (start max_ms : ℕ) (check : Script W (Option A))
    (wait : Script W Unit) where
  abbrev pub NotBack : Type 0
  NotBack = (s : Run W) → s.time ≤ (check s).1.time

  abbrev pub Waits : Type 0
  Waits = (s : Run W) → s.time + 1 ≤ (wait s).1.time

  -- What the loop does from `s`, as the source writes it.
  abbrev pub Round : Script W (Option A) → Script W (Option A)
  Round again s = while_time (ltb (s.time - start) max_ms) (check >>= go_on wait again) s

  abbrev pub loop : ℕ → Script W (Option A)
  loop fuel = poll fuel start check wait max_ms

  -- Two continuations of the loop that agree from the next millisecond on.
  module _ (again again' : Script W (Option A)) (now : ℕ)
      (agree : (u : Run W) → now + 1 ≤ u.time → again u ≡ again' u) where
    after_wait :
        (r : Settled Unit × Run W)
        → now + 1 ≤ r.1.time
        → continue (λ _. again) r ≡ continue (λ _. again') r
    after_wait (value _, u) h = agree u h
    after_wait (threw message, u) h = refl

    after_check :
        Waits
        → (r : Settled (Option A) × Run W) → now ≤ r.1.time
        → continue (go_on wait again) r ≡ continue (go_on wait again') r
    unfolding ◌>>=◌
    after_check waits (value (some a), t) h = refl
    after_check waits (value none, t) h = after_wait (wait t) (omega (arith, waits t))
    after_check waits (threw message, t) h = refl

  in_time :
      (b : Bool) (again again' : Script W (Option A)) (s : Run W)
      → (check >>= go_on wait again) s ≡ (check >>= go_on wait again') s
      → while_time b (check >>= go_on wait again) s ≡ while_time b (check >>= go_on wait again') s
  in_time true again again' s h = h
  in_time false again again' s h = refl

  poll_more_from :
      NotBack
      → Waits
      → (fuel : ℕ) (s : Run W)
      → ((u : Run W) → s.time + 1 ≤ u.time → loop fuel u ≡ loop (suc fuel) u)
      → loop (suc fuel) s ≡ loop (suc (suc fuel)) s
  unfolding poll ◌>>=◌
  poll_more_from not_back waits fuel s agree =
      in_time (ltb (s.time - start) max_ms) (loop fuel) (loop (suc fuel)) s
        (after_check (loop fuel) (loop (suc fuel)) s.time agree waits (check s) (not_back s))

  -- With time left for fewer rounds than the fuel, one more round of fuel changes nothing.
  poll_more :
      NotBack
      → Waits
      → (fuel : ℕ) (s : Run W) → start + max_ms < s.time + fuel
      → loop fuel s ≡ loop (suc fuel) s
  poll_more not_back waits zero s h =
      let late : ltb (s.time - start) max_ms ≡ false = ground arith in
      unfold poll in sym (ap (λ b. while_time b (check >>= go_on wait (loop 0)) s) late)
  poll_more not_back waits (suc fuel) s h =
      poll_more_from not_back waits fuel s
        (λ u later. poll_more not_back waits fuel u (omega arith))

  -- If the clock does not run backwards in a check and each wait takes a millisecond or more, then
  -- the fuel never runs out: the loop does from every time what the source's loop does, its test,
  -- its check, and after a wait itself again.
  pub poll_lem :
      NotBack
      → Waits
      → (s : Run W) → start ≤ s.time
      → loop (suc (suc max_ms)) s ≡ Round (loop (suc (suc max_ms))) s
  unfolding poll
  poll_lem not_back waits s began = poll_more not_back waits (suc (suc max_ms)) s (omega arith)

  -- Null is only given once the time is up.
  abbrev IsLate : Settled (Option A) × Run W → Type 0
  IsLate (r, t) = r ≡ value none → start + max_ms ≤ t.time

  module _ (again : Script W (Option A)) (now : ℕ)
      (late : (u : Run W) → now + 1 ≤ u.time → IsLate (again u)) where
    after_wait-IsLate :
        (r : Settled Unit × Run W) → now + 1 ≤ r.1.time → IsLate (continue (λ _. again) r)
    after_wait-IsLate (value _, u) h = late u h
    after_wait-IsLate (threw message, u) h = λ e. cc

    after_check-IsLate :
        Waits
        → (r : Settled (Option A) × Run W) → now ≤ r.1.time
        → IsLate (continue (go_on wait again) r)
    unfolding ◌>>=◌
    after_check-IsLate waits (value (some a), t) h = λ e. cc
    after_check-IsLate waits (value none, t) h = after_wait-IsLate (wait t) (omega (arith, waits t))
    after_check-IsLate waits (threw message, t) h = λ e. cc

  while_time-IsLate :
      (b : Bool) (again : Script W (Option A)) (s : Run W)
      → (b ≡ false → start + max_ms ≤ s.time)
      → IsLate ((check >>= go_on wait again) s)
      → IsLate (while_time b (check >>= go_on wait again) s)
  while_time-IsLate true again s h k = k
  while_time-IsLate false again s h k = λ _. h refl

  poll-IsLate :
      NotBack
      → Waits
      → (fuel : ℕ) (s : Run W) → start ≤ s.time
      → start + max_ms < s.time + fuel
      → IsLate (loop fuel s)
  unfolding poll ◌>>=◌
  poll-IsLate not_back waits zero s began h = λ _. omega arith
  poll-IsLate not_back waits (suc fuel) s began h =
      while_time-IsLate (ltb (s.time - start) max_ms) (loop fuel) s (λ e. ground arith)
        (after_check-IsLate (loop fuel) s.time
          (λ u later. poll-IsLate not_back waits fuel u (omega arith) (omega arith)) waits (check s)
          (not_back s))

module _ {W : Type 0} (o : Outside W) where
  delay-waits : (ms : ℕ) (s : Run W) → s.time + ms ≤ (delay o ms s).1.time
  unfolding delay
  delay-waits ms s = omega (arith, ((Proceeds-await (o.wait ms)).at s).time)

  -- If the clock does not run backwards in a check, `pollUntil` always ends: it does what the loop
  -- of the source does, at its start and after each wait, and it gives null only when `max_ms` have
  -- gone by.
  pub poll_until_lem :
      {A : Type 0} (check : Script W (Option A)) (max_ms : ℕ) (s : Run W)
      → ((u : Run W) → u.time ≤ (check u).1.time)
      → let loop = poll (suc (suc max_ms)) s.time check (delay o 500) max_ms in
        let round = Round s.time max_ms check (delay o 500) loop in
        (poll_until o check max_ms s ≡ round s)
        × ((u : Run W) → s.time ≤ u.time → loop u ≡ round u)
        × ((poll_until o check max_ms s).0 ≡ value none
            → s.time + max_ms ≤ (poll_until o check max_ms s).1.time)
  unfolding poll_until
  poll_until_lem check max_ms s not_back =
      let waits = λ (u : Run W).
        let h = delay-waits 500 u in
        let g : u.time + 1 ≤ (delay o 500 u).1.time = omega (arith, h) in g in
      let same = λ (u : Run W) (began : s.time ≤ u.time).
        poll_lem s.time max_ms check (delay o 500) not_back waits u began in
      (
        same s (le_refl s.time),
        same,
        poll-IsLate s.time max_ms check (delay o 500) not_back waits (suc (suc max_ms)) s
            (le_refl s.time) (omega arith),
      )
