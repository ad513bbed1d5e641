-- ===== src/Server/Limits.antt =====
-- `RateLimiter` of internal/auth/ratelimit.go. A time is a count of nanoseconds, and `t.Before` of
-- the time `window` before `now` is written with a sum. The mutex makes each operation one step;
-- but `Allow` reads the clock before it waits for the mutex, which is part of the step here, so that
-- the model's times are those of calls that do not wait for each other.
pub mod Reference
pub mod Window
use starbies_schedule_sync.Base.{
  ℕ, zero, suc, ◌+◌, ltb, leb, String, Bool, true, false, ◌||◌, Option, none, some, List, [], ◌∷◌,
  ◌++◌, length, or_else, if◌then◌else◌, str_eq, put,
}

-- The map `requests`, without its mutex and its channel.
abbrev pub Requests : Type 0
Requests = String → Option (List ℕ)

abbrev pub no_requests : Requests
no_requests = λ _. none

pub data Event : Type 0 where
  asked : (now : ℕ) → (key : String) → Event
  swept : (now : ℕ) → Event

-- What `Allow` answered.
pub record Answer : Type 0 where
  pub time : ℕ
  pub key : String
  pub allowed : Bool

-- The last element, or zero.
unfoldable pub last : List ℕ → ℕ
last [] = 0
last (t ∷ ts) = if leb (length ts) 0 then t else last ts

module _ (window : ℕ) where
  -- `t.Before(cutoff)`
  abbrev pub is_stale : ℕ → ℕ → Bool
  is_stale now t = ltb (t + window) now

  unfoldable pub prune : ℕ → List ℕ → List ℕ
  prune now [] = []
  prune now (t ∷ ts) = let rest = prune now ts in if is_stale now t then rest else t ∷ ts

  abbrev pub all_stale : ℕ → List ℕ → Bool
  all_stale now ts = leb (length ts) 0 || is_stale now (last ts)

  abbrev pub keep : ℕ → Option (List ℕ) → Option (List ℕ)
  keep now none = none
  keep now (some ts) = if all_stale now ts then none else some ts

  -- A tick of `sweep`.
  unfoldable pub sweep : ℕ → Requests → Requests
  unfolding last
  sweep now s key = keep now (s key)

module _ (limit : ℕ) where
  abbrev pub room : List ℕ → Bool
  room timestamps = ltb (length timestamps) limit

  -- The answer, and what is stored under the key.
  unfoldable pub admit : ℕ → List ℕ → Bool × List ℕ
  admit now timestamps =
      (room timestamps, if room timestamps then timestamps ++ now ∷ [] else timestamps)

module _ (window limit : ℕ) where
  unfoldable pub allow : ℕ → String → Requests → Bool × Requests
  unfolding admit prune
  allow now key s =
      let (allowed, ts) = admit limit now (prune window now (or_else (s key) [])) in
      (allowed, put key (some ts) s)

  -- The limiter, and its answers so far, the newest first.
  unfoldable pub step : Event → Requests × List Answer → Requests × List Answer
  unfolding allow sweep
  step (asked now key) (s, log) =
      let (allowed, s') = allow now key s in
      (s', record { time = now; key = key; allowed = allowed } ∷ log)
  step (swept now) (s, log) = (sweep window now s, log)

  unfoldable pub run : List Event → Requests × List Answer → Requests × List Answer
  unfolding step
  run [] s = s
  run (e ∷ es) s = run es (step e s)
