-- ===== src/Scraper/Job/Effects.antt =====
-- What the steps before the submission leave alone.
use starbies_schedule_sync.Base.{
  ℕ, zero, suc, ◌+◌, ltb, length, String, Option, none, some, List, [], ◌∷◌,
}
use starbies_schedule_sync.Scraper.Script.{
  Line, too_few_weeks, Outside, SecurityQuestion, pure, log,
}
use starbies_schedule_sync.Scraper.Script.Progress.{
  Progress-refl, Proceeds, Proceeds-bind, Proceeds-pure, Proceeds-log, Proceeds-if, proceeds_rules,
}
use starbies_schedule_sync.Scraper.Page.{click_and_wait_for_api}
use starbies_schedule_sync.Api.Request.{includes}
use starbies_schedule_sync.Scraper.Answers.{
  first_asked, answer_with, first_entry, find_security_answer,
}
use starbies_schedule_sync.Scraper.Job.{
  target_domain, expected_weeks, Keys, domain, bypass, Authentication, enter_username,
  open_login_page, look_for_bypass, check_authenticated, answer_questions, proceed, authenticate,
  check_captured, warn_if_few, open_schedule, click_weeks, capture_weeks,
}
use starbies_schedule_sync.Scraper.Page.Effects.{
  poll_until-Proceeds, click_and_wait_for_api-Proceeds, page_rules, form_rules,
}

module _ {W : Type 0} where
  check_captured-Proceeds : Proceeds (check_captured {W = W})
  unfolding check_captured
  check_captured-Proceeds = record { at = Progress-refl }

  warn_if_few-Proceeds : Proceeds (warn_if_few {W = W})
  unfolding warn_if_few
  warn_if_few-Proceeds = record {
    at = λ s.
        (Proceeds-if (ltb (length s.captured_weeks) expected_weeks) _ (pure tt)
            (Proceeds-log (too_few_weeks expected_weeks (length s.captured_weeks)))
            (Proceeds-pure tt)).at
          s;
  }

module _ {W : Type 0} (o : Outside W) where
  enter_username-Proceeds : (username : String) → Proceeds (enter_username o username)
  unfolding enter_username
  enter_username-Proceeds username = search form_rules

  pub open_login_page-Proceeds : (username : String) → Proceeds (open_login_page o username)
  unfolding open_login_page
  open_login_page-Proceeds username = search (form_rules, enter_username-Proceeds) depth 20

  look_for_bypass-Proceeds : Proceeds (look_for_bypass o)
  unfolding look_for_bypass
  look_for_bypass-Proceeds = search page_rules

  check_authenticated-Proceeds : Proceeds (check_authenticated o)
  unfolding check_authenticated
  check_authenticated-Proceeds = record {
    at = λ s.
        (Proceeds-if (includes (o.page_url s.world) target_domain) (pure (some domain))
            (look_for_bypass o) (Proceeds-pure (some domain)) look_for_bypass-Proceeds).at
          s;
  }

  first_entry-Proceeds :
      (lower : String → String) (questions : List SecurityQuestion)
      → Proceeds (first_entry lower {W = W} questions)
  first_entry-Proceeds lower [] = search proceeds_rules
  first_entry-Proceeds lower (q ∷ qs) = search proceeds_rules

  answer_with-Proceeds :
      (lower : String → String) (found : Option SecurityQuestion)
      (questions : List SecurityQuestion)
      → Proceeds (answer_with lower {W = W} found questions)
  answer_with-Proceeds lower none questions = search (proceeds_rules, first_entry-Proceeds)
  answer_with-Proceeds lower (some q) questions = search proceeds_rules

  find_security_answer-Proceeds :
      (lower : String → String) (text : String) (questions : List SecurityQuestion)
      → Proceeds (find_security_answer lower {W = W} text questions)
  unfolding find_security_answer
  find_security_answer-Proceeds lower text questions =
      answer_with-Proceeds lower (first_asked lower (lower text) questions) questions

  answer_questions-Proceeds :
      (lower : String → String) (keys : Keys) → Proceeds (answer_questions o lower keys)
  unfolding answer_questions
  answer_questions-Proceeds lower keys = search (form_rules, find_security_answer-Proceeds) depth 20

  proceed-Proceeds :
      (lower : String → String) (found : Option Authentication) (keys : Keys)
      → Proceeds (proceed o lower found keys)
  proceed-Proceeds lower (some bypass) keys = answer_questions-Proceeds lower keys
  proceed-Proceeds lower (some domain) keys = search page_rules
  proceed-Proceeds lower none keys = search page_rules

  pub authenticate-Proceeds :
      (lower : String → String) (keys : Keys) → Proceeds (authenticate o lower keys)
  unfolding authenticate
  authenticate-Proceeds lower keys =
      search (form_rules, poll_until-Proceeds, check_authenticated-Proceeds, proceed-Proceeds)

  pub open_schedule-Proceeds : Proceeds (open_schedule o)
  unfolding open_schedule
  open_schedule-Proceeds = search form_rules depth 20

  click_weeks-Proceeds :
      (button : String) (line : ℕ → Line) (rounds i : ℕ)
      → Proceeds (click_weeks o button line rounds i)
  unfolding click_weeks
  click_weeks-Proceeds button line zero i = Proceeds-pure tt
  click_weeks-Proceeds button line (suc rounds) i =
      Proceeds-bind (click_and_wait_for_api o button "/mySchedules/") _
        (click_and_wait_for_api-Proceeds o button "/mySchedules/")
        (λ _.
          Proceeds-bind (log (line (i + 1))) _ (Proceeds-log (line (i + 1)))
            (λ _. click_weeks-Proceeds button line rounds (i + 1)))

  pub capture_weeks-Proceeds : Proceeds (capture_weeks o)
  unfolding capture_weeks
  capture_weeks-Proceeds = search (
    page_rules, click_weeks-Proceeds, poll_until-Proceeds, check_captured-Proceeds,
    warn_if_few-Proceeds,
  )
