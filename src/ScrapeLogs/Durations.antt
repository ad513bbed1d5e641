-- ===== src/ScrapeLogs/Durations.antt =====
-- The rounding of durations.
use starbies_schedule_sync.Base.{◌+◌, ◌*◌, ◌≤◌, ◌<◌, arith}
use starbies_schedule_sync.Base.Int.{ℤ, pos, negsuc, pos_part, neg_part}
use starbies_schedule_sync.ScrapeLogs.{round_seconds}

-- 1000 r <= ms + 500 < 1000 r + 1000, with the negative parts on the other sides.
abbrev pub IsNearest : ℤ → ℤ → Type 0
IsNearest ms r =
    (1000 * pos_part r + neg_part ms ≤ pos_part ms + 500 + 1000 * neg_part r)
    × (pos_part ms + 500 + 1000 * neg_part r < 1000 * pos_part r + 1000 + neg_part ms)

-- The seconds shown are the nearest to the duration, halves upwards, for negative ones too.
pub round_seconds-IsNearest : (ms : ℤ) → IsNearest ms (round_seconds ms)
unfolding round_seconds
round_seconds-IsNearest (pos n) = omega arith
round_seconds-IsNearest (negsuc n) = ground arith
