-- ===== src/Dashboard/RelativeTimes.antt =====
-- The texts of `formatRelative` against the number of whole minutes that they stand for.
use starbies_schedule_sync.Base.{
  ℕ, suc, ◌+◌, ◌*◌, ◌/◌, ◌≤◌, ◌<◌, ◌≡◌, ◌↔◌, Option, none, some, arith,
}
use starbies_schedule_sync.Base.Int.{ℤ, pos, negsuc}
use starbies_schedule_sync.Dashboard.{
  Relative, any_moment, in_minutes, in_hours, in_hours_minutes, just_now, minutes_ago, hours_ago,
  on_date, future, past, relative,
}

-- The whole minutes that a text says are left.
abbrev pub minutes_left : Relative → Option ℕ
minutes_left any_moment = some 0
minutes_left (in_minutes m) = some m
minutes_left (in_hours h) = some (60 * h)
minutes_left (in_hours_minutes h m) = some (60 * h + m)
minutes_left _ = none

-- No text says "0m", "60m" or "0h", and a text about the past goes up to "23h ago".
abbrev pub IsTidy : Relative → Type 0
IsTidy (in_minutes m) = (0 < m) × (m < 60)
IsTidy (in_hours h) = 0 < h
IsTidy (in_hours_minutes h m) = (0 < h) × (0 < m) × (m < 60)
IsTidy (minutes_ago m) = (0 < m) × (m < 60)
IsTidy (hours_ago h) = (0 < h) × (h < 24)
IsTidy _ = Unit

future-IsTidy : (abs : ℕ) → IsTidy (future abs)
unfolding future
future-IsTidy abs = ground arith

past-IsTidy : (diff : ℕ) → IsTidy (past diff)
unfolding past
past-IsTidy diff = ground arith

-- Every text is well formed.
pub relative-IsTidy : (diff : Option ℤ) → IsTidy (relative diff)
unfolding relative
relative-IsTidy none = tt
relative-IsTidy (some (negsuc n)) = future-IsTidy (suc n)
relative-IsTidy (some (pos n)) = past-IsTidy n

-- For a time ahead, the text says exactly the whole minutes that are left.
pub minutes_left-relative :
    (n : ℕ) → minutes_left (relative (some (negsuc n))) ≡ some (suc n / 60000)
unfolding relative future
minutes_left-relative n = ground arith

-- For a time gone by, the text says the whole minutes up to an hour, then the whole hours up to a
-- day, and the date from then on.
pub relative-pos :
    (n m : ℕ)
    → ((relative (some (pos n)) ≡ just_now) ↔ (n < 60000))
      × ((relative (some (pos n)) ≡ minutes_ago m)
          ↔ ((0 < m) × (m < 60) × (60000 * m ≤ n) × (n < 60000 * suc m)))
      × ((relative (some (pos n)) ≡ hours_ago m)
          ↔ ((0 < m) × (m < 24) × (3600000 * m ≤ n) × (n < 3600000 * suc m)))
      × ((relative (some (pos n)) ≡ on_date) ↔ (86400000 ≤ n))
unfolding relative past
relative-pos n m = ground arith
