-- ===== src/Screenshots/Tests.antt =====
-- The timeline on concrete screenshots.
use starbies_schedule_sync.Base.{
  ◌≤◌, ◌<◌, String, ◌≡◌, ◌↔◌, refl, none, some, List, [], ◌∷◌, length, true, false,
}
use starbies_schedule_sync.Base.Int.{pos}
use starbies_schedule_sync.Screenshots.{
  Timeline, mount, render, picture, previous, next, handle, run, change,
}
use starbies_schedule_sync.Screenshots.Range.{change-eq-none_iff}

abbrev three : List String
three = "a" ∷ "data:image/png;base64,b" ∷ "c" ∷ []

shows_last :
    render (mount three)
    ≡ picture "data:image/png;base64,c"
        (some (record { previous_disabled = false; next_disabled = true }))
unfolding render mount
shows_last = refl

shows_middle :
    render (run (mount three) (next ∷ previous ∷ []))
    ≡ picture "data:image/png;base64,b"
        (some (record { previous_disabled = false; next_disabled = false }))
unfolding render run handle mount
shows_middle = refl

abbrev at_third : Timeline
at_third = record { screenshots = three; index = pos 2 }

abbrev one : List String
one = "d" ∷ []

-- A shorter list arrives while the third picture is shown.
change-eq-none_iff_example :
    ((change one at_third ≡ none) ↔ ((0 < length one) × (length one ≤ 2)))
    × ((u : Timeline) → change one at_third ≡ some u → u ≡ mount one)
change-eq-none_iff_example = change-eq-none_iff one at_third 2 refl

throws : change one at_third ≡ none
unfolding change
throws = refl
