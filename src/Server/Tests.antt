-- ===== src/Server/Tests.antt =====
-- A call of the client that the server has a route for, a PIN that is asked for and entered, and
-- requests at a limit.
use starbies_schedule_sync.Base.{
  map, Bool, true, false, ◌≤◌, refl, inr, ◌≡◌, ℕ, ◌*◌, String, none, some, List, [], ◌∷◌,
  if◌then◌else◌, str_eq, arith,
}
use starbies_schedule_sync.Api.Request.{includes}
use starbies_schedule_sync.Api.Endpoints.{trigger_scrape}
use starbies_schedule_sync.Api.Endpoints.Calls.{call}
use starbies_schedule_sync.Server.Routes.{IsServed, IsSegment, call-IsServed}
use starbies_schedule_sync.Server.Limits
use starbies_schedule_sync.Server.Limits.Reference.{answers}
use starbies_schedule_sync.Server.Limits.Window.{run-eq-answers, passes, passes-run}
use starbies_schedule_sync.Server.Pins.{
  Event, stored, verified, ticked, new_pin_store, pin_has_expired, incorrect_pin, verify, run,
}
use starbies_schedule_sync.Server.Pins.Accepted.{verify_iff}

u1-IsSegment : IsSegment "u1"
unfolding includes
u1-IsSegment = ((λ h. cc), refl)

call-IsServed_example : IsServed (call (trigger_scrape "u1"))
call-IsServed_example = call-IsServed (trigger_scrape "u1") u1-IsSegment

-- `ToLower` on the texts of the tests.
abbrev to_lower : String → String
to_lower text = if str_eq text "Ada@x.org" then "ada@x.org" else text

abbrev second : ℕ
second = 1000000000

-- A PIN that is asked for again, and a wrong one entered.
abbrev signing_in : List Event
signing_in =
    stored 0 "ada@x.org" "111111"
    ∷ stored (9 * second) "Ada@x.org" "222222"
    ∷ verified (20 * second) "ada@x.org" "111111"
    ∷ ticked (60 * second)
    ∷ stored (61 * second) "bob@x.org" "222222"
    ∷ []

accepts :
    (verify to_lower (70 * second) "ada@x.org" "222222" (run to_lower signing_in new_pin_store)).0
    ≡ none
unfolding verify run
accepts = refl

refuses_the_first :
    (verify to_lower (70 * second) "ada@x.org" "111111" (run to_lower signing_in new_pin_store)).0
    ≡ some (incorrect_pin 3)
unfolding verify run
refuses_the_first = refl

refuses_late :
    (verify to_lower (700 * second) "ada@x.org" "222222" (run to_lower signing_in new_pin_store)).0
    ≡ some pin_has_expired
unfolding verify run
refuses_late = refl

verify_iff_example :
    (verify to_lower (70 * second) "ada@x.org" "222222" (run to_lower signing_in new_pin_store)).0
    ≡ none
verify_iff_example =
    (verify_iff to_lower signing_in (70 * second) "ada@x.org" "222222"
        (omega arith, (omega arith, (omega arith, (omega arith, (omega arith, tt)))))).1
      (
        stored 0 "ada@x.org" "111111" ∷ [],
        verified (20 * second) "ada@x.org" "111111"
            ∷ ticked (60 * second)
            ∷ stored (61 * second) "bob@x.org" "222222"
            ∷ [],
        9 * second,
        "Ada@x.org",
        refl,
        refl,
        (inr refl, (tt, (refl, tt))),
        omega arith,
        omega arith,
      )

-- Two requests in ten: the third is refused, a sweep changes nothing, and the fourth is late enough.
abbrev asking : List Limits.Event
asking =
    Limits.asked 1 "ip"
    ∷ Limits.asked 5 "ip"
    ∷ Limits.asked 11 "ip"
    ∷ Limits.swept 12
    ∷ Limits.asked 12 "ip"
    ∷ Limits.asked 13 "other"
    ∷ []

answered : List Bool
answered =
    map (λ (a : Limits.Answer). a.allowed) (Limits.run 10 2 asking (Limits.no_requests, [])).1

answers_asking : answered ≡ true ∷ true ∷ false ∷ true ∷ true ∷ []
unfolding answered Limits.run
answers_asking = refl

run-eq-answers_example :
    (Limits.run 10 2 asking (Limits.no_requests, [])).1 ≡ answers 10 2 asking []
run-eq-answers_example =
    run-eq-answers 10 2 asking
      (omega arith, (omega arith, (omega arith, (omega arith, (omega arith, (omega arith, tt))))))

passes-run_example : passes 10 2 2 "ip" (Limits.run 10 2 asking (Limits.no_requests, [])).1 ≤ 2
passes-run_example =
    passes-run 10 2 asking 2 "ip"
      (omega arith, (omega arith, (omega arith, (omega arith, (omega arith, (omega arith, tt))))))
