-- ===== src/Api/Tests.antt =====
-- Requests and the cache on concrete replies.
use Prim.Native.String.{◌++◌}
use starbies_schedule_sync.Base.{ℕ, ◌≡◌, ◌↔◌, refl, true, some, List, [], ◌∷◌}
use starbies_schedule_sync.Browser.{ok}
use starbies_schedule_sync.Api.Request.{receive, includes}
use starbies_schedule_sync.Api.Request.Outcomes.{
  IsAnswer, IsSignedOut, IsChallenge, receive-eq-ok_iff, receive_leaves_iff,
}
use starbies_schedule_sync.Api.Cache.{pending, Event, ask, fulfil, empty, cached, step, run}
use starbies_schedule_sync.Api.Cache.Invariant.{IsLive}
use starbies_schedule_sync.Api.Cache.Sharing.{Answers, single_flight, cached-Answers}
use starbies_schedule_sync.Fixtures.{json, html, ann, at_schedule}

receive-eq-ok_iff_example :
    (receive true (json 200 ann) at_schedule ≡ (ok ann, at_schedule))
    ↔ (IsAnswer (json 200 ann) ann × (at_schedule ≡ at_schedule))
receive-eq-ok_iff_example = receive-eq-ok_iff true (json 200 ann) at_schedule ann at_schedule

receives : receive true (json 200 ann) at_schedule ≡ (ok ann, at_schedule)
unfolding receive includes
receives = refl

meets_barrier : (receive true (html ann) at_schedule).1.return_path ≡ some "/dashboard?week=2"
unfolding receive includes
meets_barrier = refl

receive_leaves_iff_example :
    let after = (receive true (json 401 ann) at_schedule).1 in
    ((after.href ≡ some "/login") ↔ IsSignedOut true (json 401 ann))
    × ((after.href ≡ some "/") ↔ IsChallenge (json 401 ann))
    × (IsChallenge (json 401 ann)
        → after.return_path ≡ some (at_schedule.pathname ++ at_schedule.search))
    × (¬ IsChallenge (json 401 ann) → after.return_path ≡ at_schedule.return_path)
receive_leaves_iff_example = receive_leaves_iff true (json 401 ann) at_schedule refl

-- Two calls for the configuration, before its request settles.
abbrev asked_twice : List (Event ℕ)
asked_twice = ask "config" ∷ ask "config" ∷ []

asks_once : (run empty asked_twice).next ≡ 1
unfolding run step cached
asks_once = refl

in_flight : (run empty asked_twice).promises 0 ≡ some (pending "config")
unfolding run step cached
in_flight = refl

is_live : IsLive "config" ((run empty asked_twice).promises 0)
unfolding run step cached
is_live = refl

single_flight_example : ◌≡◌ {A = ℕ} 0 0
single_flight_example = single_flight asked_twice "config" 0 0 is_live is_live

cached-Answers_example :
    Answers "icsUrl" (run empty asked_twice) (cached "icsUrl" (run empty asked_twice))
cached-Answers_example = cached-Answers asked_twice "icsUrl"

abbrev settled : List (Event ℕ)
settled = fulfil 0 7 ∷ ask "config" ∷ []
