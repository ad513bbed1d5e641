-- ===== src/Scraper/Tests.antt =====
-- A portal that lets the script in, and runs on it.
use starbies_schedule_sync.Base.{
  ℕ, ◌+◌, ◌≤◌, ◌≡◌, ◌⊎◌, inl, inr, ◌↔◌, refl, String, true, false, Option, none, some, List, [],
  ◌∷◌, arith, Has, if◌then◌else◌, str_eq,
}
use starbies_schedule_sync.Base.Int.{ℤ, pos}
use starbies_schedule_sync.Scraper.Schedule.{
  RawShift, Day, Week, shift_of, merge_schedule_data, extract_shifts,
}
use starbies_schedule_sync.Scraper.Schedule.First.{
  find_day, all_days, days_of, IsUnique, merge_schedule_data-find_day,
}
use starbies_schedule_sync.Scraper.Schedule.Order.{HasTime}
use starbies_schedule_sync.Scraper.Schedule.Captured.{merge_schedule_data-eq}
use starbies_schedule_sync.Scraper.Schedule.Defaults.{IsShiftOf}
use starbies_schedule_sync.Scraper.Schedule.Shifts.{IsLocation, shifts_of, Has-extract_shifts}
use starbies_schedule_sync.Api.Request.{includes}
use starbies_schedule_sync.Scraper.Answers.{
  find_security_answer, NoneAsked, IsFirstAsked, find_security_answer_lem,
}
use starbies_schedule_sync.Scraper.Script.{
  value, Reply, shifts_post, Outside, Run, SecurityQuestion, PageResponse, catch, finally, ◌>>=◌,
  log, await, on_response, on_responses,
}
use starbies_schedule_sync.Scraper.Page.{
  poll, delay, poll_until, keep_screenshot, screenshot, get_title, evaluate, first_visible,
  find_visible_input, click_and_wait_for_api,
}
use starbies_schedule_sync.Scraper.Page.Polling.{Round, poll_until_lem}
use starbies_schedule_sync.Scraper.Job.{
  Keys, check_captured, session, in_browser, run, main, start, fetch_credentials, open_login_page,
  look_for_bypass, check_authenticated, authenticate, open_schedule, click_weeks, warn_if_few,
  capture_weeks, submit_results, close_browser, post_json, keys_of,
}
use starbies_schedule_sync.Scraper.Job.Leaves.{After}
use starbies_schedule_sync.Scraper.Job.Reports.{Ended, begun, in_browser-After, main-Ended}

abbrev barista : RawShift
barista = record {
  start = some "2026-03-02T08:00:00";
  end = some "2026-03-02T16:00:00";
  job = none;
  net_hours = none;
  scheduled_shift_id = some "77";
}

abbrev day : String → List RawShift → Day
day date shifts = record { business_date = some date; pay_scheduled_shifts = some shifts }

abbrev week : List Day → Week
week days = record { days = some days; home_site = some (record { name = some "Store 12" }) }

abbrev monday : Day
monday = day "1" (barista ∷ [])

abbrev tuesday : Day
tuesday = day "2" []

abbrev weeks : List Week
weeks = week (tuesday ∷ []) ∷ week (monday ∷ tuesday ∷ []) ∷ []

abbrev date : String → Option ℤ
date text = if str_eq text "1" then some (pos 1) else if str_eq text "2" then some (pos 2) else none

merges : days_of (merge_schedule_data date weeks) ≡ monday ∷ tuesday ∷ []
unfolding merge_schedule_data
merges = refl

merge_schedule_data-find_day_example :
    IsUnique (days_of (merge_schedule_data date weeks))
    × (find_day (some "2") (days_of (merge_schedule_data date weeks))
        ≡ find_day (some "2") (all_days weeks))
merge_schedule_data-find_day_example = merge_schedule_data-find_day date weeks (some "2")

have_times : (d : Day) → Has d (all_days weeks) → HasTime date d
have_times d (inl e) = rw e refl
have_times d (inr (inl e)) = rw e refl
have_times d (inr (inr (inl e))) = rw e refl
have_times d (inr (inr (inr h))) = absurd h

abbrev once : List Week
once = week (monday ∷ []) ∷ []

abbrev twice : List Week
twice = week [] ∷ week (monday ∷ monday ∷ []) ∷ []

same_days : (d : Day) → Has d (all_days once) ↔ Has d (all_days twice)
same_days d = (elim [ inl e ↦ inl e | inr h ↦ absurd h ], elim [ inl e ↦ inl e | inr h ↦ h ])

one_day : (d : Day) → Has d (all_days once) → d ≡ monday
one_day d (inl e) = e
one_day d (inr h) = absurd h

merge_schedule_data-eq_example :
    days_of (merge_schedule_data date once) ≡ days_of (merge_schedule_data date twice)
merge_schedule_data-eq_example =
    merge_schedule_data-eq date once twice same_days
      (λ a b ha hb _. cc (one_day a ha, one_day b hb)) (λ d h. rw (one_day d h) refl)
      (λ a b ha hb _. cc (one_day a ha, one_day b hb))

Has-extract_shifts_example :
    let s = shift_of "Store 12" barista in
    Has s (extract_shifts (merge_schedule_data date weeks)) ↔ (
      (d : Day) × (raw : RawShift) × (find_day d.business_date (all_days weeks) ≡ some d)
      × Has raw (shifts_of d)
      × IsShiftOf raw s
      × IsLocation weeks s.location)
Has-extract_shifts_example = Has-extract_shifts date weeks (shift_of "Store 12" barista)

abbrev game : SecurityQuestion
game = record { question = some "game"; answer = "chess" }

abbrev born : SecurityQuestion
born = record { question = some "born"; answer = "Oslo" }

-- The world counts the answers of the schedule's API.
abbrev settles : {A : Type 0} → A → ℕ → Reply ℕ A
settles a w = record { settled = value a; elapsed = 3; responses = []; world = w }

abbrev schedule_response : PageResponse
schedule_response = record {
  url = "https://portal/mySchedules/1";
  document = some (week (monday ∷ tuesday ∷ []));
}

abbrev portal : Outside ℕ
portal = record {
  get_credentials = settles record {
    ok = true;
    status = 200;
    json = value record {
      username = some "US1";
      password = some "secret";
      security_questions = some (game ∷ born ∷ []);
    };
  };
  post = λ body. settles record { ok = true; status = 200; json = value tt };
  launch = settles tt;
  close = settles tt;
  new_page = settles tt;
  goto = λ url. settles tt;
  title = settles "Portal";
  page_url = λ w. "https://starbucks-wfmr.jdadelivers.com/retail/portal";
  take_screenshot = settles "iVBOR";
  wait_for_visible = λ timeout selectors. settles tt;
  query = λ selector. settles (some 1);
  is_intersecting_viewport = λ element. settles true;
  type = λ element text. settles tt;
  click_element = λ element. settles tt;
  press_enter = settles tt;
  wait_for_navigation = settles tt;
  click = λ selector. settles tt;
  wait_for_response = λ url_pattern timeout w. record {
    settled = value tt;
    elapsed = 40;
    responses = schedule_response ∷ [];
    world = w + 1;
  };
  has_bypass_link = settles false;
  click_bypass_link = settles tt;
  body_text = settles "What game?";
  set_location = λ url. settles tt;
  wait = λ ms. settles tt;
}

abbrev nothing_done : Run ℕ
nothing_done = record {
  log_lines = [];
  screenshots = [];
  captured_weeks = [];
  time = 0;
  posts = [];
  closes = 0;
  world = 0;
}

abbrev lower : String → String
lower text = text

abbrev ending : ℕ × Run ℕ
ending = main portal "http://app" lower date nothing_done

main-Ended_example :
    Ended (begun nothing_done) (run portal "http://app" lower date nothing_done) ending.0 ending.1
main-Ended_example = main-Ended portal "http://app" lower date nothing_done

abbrev keys : Keys
keys = record { username = "US1"; password = "secret"; security_questions = game ∷ born ∷ [] }

in_browser-After_example :
    After nothing_done (in_browser portal "http://app" lower date keys nothing_done) 1
in_browser-After_example = in_browser-After portal "http://app" lower date keys nothing_done

not_back : (u : Run ℕ) → u.time ≤ (check_captured u).1.time
unfolding check_captured
not_back u = omega arith

poll_until_lem_example :
    let loop = poll 5002 0 check_captured (delay portal 500) 5000 in
    let round = Round 0 5000 check_captured (delay portal 500) loop in
    (poll_until portal check_captured 5000 nothing_done ≡ round nothing_done)
    × ((u : Run ℕ) → 0 ≤ u.time → loop u ≡ round u)
    × ((poll_until portal check_captured 5000 nothing_done).0 ≡ value none
        → 5000 ≤ (poll_until portal check_captured 5000 nothing_done).1.time)
poll_until_lem_example = poll_until_lem portal check_captured 5000 nothing_done not_back

find_security_answer_lem_example :
    (answer : String) × ((find_security_answer lower "What game?" (game ∷ born ∷ []) nothing_done).0
      ≡ value answer)
    × ((NoneAsked lower "What game?" (game ∷ born ∷ []) × (answer ≡ game.answer))
        ⊎ ((e : SecurityQuestion) × IsFirstAsked lower "What game?" e (game ∷ born ∷ [])
            × (answer ≡ e.answer)))
find_security_answer_lem_example =
    find_security_answer_lem lower "What game?" game (born ∷ []) nothing_done

-- A whole run: three responses with the same two days, and the one shift posted.
abbrev done : ℕ × Run ℕ
done = start portal lower date (some "key") (some "http://app") nothing_done

delivers :
    (done.0 ≡ 0)
    × (done.1.posts ≡ shifts_post (shift_of "Store 12" barista ∷ []) (some "Store 12") ∷ [])
    × (done.1.closes ≡ 1)
unfolding start main run fetch_credentials in_browser session open_login_page authenticate
    open_schedule capture_weeks submit_results close_browser look_for_bypass check_authenticated
    click_weeks check_captured warn_if_few keep_screenshot first_visible post_json keys_of
    merge_schedule_data extract_shifts poll_until poll delay screenshot get_title evaluate
    find_visible_input click_and_wait_for_api catch finally ◌>>=◌ log await on_responses on_response
    includes
delivers = (refl, refl, refl)
