-- ===== src/Scraper/Page/Effects.antt =====
-- What the page helpers leave alone.
use starbies_schedule_sync.Base.{
  ℕ, zero, suc, ◌-◌, ltb, refl, String, Bool, true, false, Option, none, some, List, [], ◌∷◌, arith,
}
use starbies_schedule_sync.Scraper.Script.{Reply, Script, Outside, ◌>>=◌, await}
use starbies_schedule_sync.Scraper.Script.Progress.{
  Progress-refl, Progress-trans, Proceeds, Proceeds-bind, Proceeds-pure, Proceeds-log,
  Proceeds-await, Proceeds-if, proceeds_rules,
}
use starbies_schedule_sync.Scraper.Page.{
  keep_screenshot, both, while_time, go_on, delay, poll, poll_until, screenshot, get_title,
  evaluate, check_visible, first_visible, press_submit, find_visible_input, type_into, submit_form,
  click_and_wait_for_api,
}

module _ {W : Type 0} where
  pub keep_screenshot-Proceeds :
      (label base64 : String) → Proceeds (keep_screenshot {W = W} label base64)
  unfolding keep_screenshot
  keep_screenshot-Proceeds label base64 = record {
    at = λ s.
        let p = Progress-refl s in
        record { time = p.time; log_lines = p.log_lines; posts = refl; closes = refl };
  }

  pub both-Proceeds : (m n : Script W Unit) → Proceeds m → Proceeds n → Proceeds (both m n)
  unfolding both
  both-Proceeds m n p q = record { at = λ s. Progress-trans (p.at s) (q.at (m s).1) }

  module _ {A : Type 0} (start max_ms : ℕ) (check : Script W (Option A))
      (wait : Script W Unit) where
    pub while_time-Proceeds :
        (b : Bool) (m : Script W (Option A)) → Proceeds m → Proceeds (while_time b m)
    while_time-Proceeds true m p = p
    while_time-Proceeds false m p = record { at = Progress-refl }

    pub go_on-Proceeds :
        (again : Script W (Option A))
        → Proceeds wait
        → Proceeds again
        → (found : Option A) → Proceeds (go_on wait again found)
    go_on-Proceeds again p q (some a) = Proceeds-pure (some a)
    go_on-Proceeds again p q none = Proceeds-bind wait (λ _. again) p (λ _. q)

    pub poll-Proceeds :
        Proceeds check → Proceeds wait → (fuel : ℕ) → Proceeds (poll fuel start check wait max_ms)
    unfolding poll
    poll-Proceeds p q zero = record { at = Progress-refl }
    poll-Proceeds p q (suc fuel) = record {
      at = λ s.
          (while_time-Proceeds (ltb (s.time - start) max_ms)
              (check >>= go_on wait (poll fuel start check wait max_ms))
              (Proceeds-bind check _ p (go_on-Proceeds _ q (poll-Proceeds p q fuel)))).at
            s;
    }

module _ {W : Type 0} (o : Outside W) where
  pub delay-Proceeds : (ms : ℕ) → Proceeds (delay o ms)
  unfolding delay
  delay-Proceeds ms = record {
    at = λ s.
        let p = (Proceeds-await (o.wait ms)).at s in
        record {
          time = omega (arith, p.time);
          log_lines = p.log_lines;
          posts = p.posts;
          closes = p.closes;
        };
  }

  pub poll_until-Proceeds :
      {A : Type 0} (check : Script W (Option A)) (max_ms : ℕ)
      → Proceeds check
      → Proceeds (poll_until o check max_ms)
  unfolding poll_until
  poll_until-Proceeds check max_ms p = record {
    at = λ s.
        (poll-Proceeds s.time max_ms check (delay o 500) p (delay-Proceeds 500)
            (suc (suc max_ms))).at
          s;
  }

  pub ruleset step_rules = (proceeds_rules, keep_screenshot-Proceeds, both-Proceeds, delay-Proceeds)

  pub screenshot-Proceeds : (label : String) → Proceeds (screenshot o label)
  unfolding screenshot
  screenshot-Proceeds label = search step_rules

  pub get_title-Proceeds : Proceeds (get_title o)
  unfolding get_title
  get_title-Proceeds = search step_rules

  pub evaluate-Proceeds : {A : Type 0} (operation : W → Reply W A) → Proceeds (evaluate o operation)
  unfolding evaluate
  evaluate-Proceeds operation = search step_rules

  pub ruleset page_rules = (step_rules, screenshot-Proceeds, get_title-Proceeds, evaluate-Proceeds)

  pub check_visible-Proceeds :
      (element : Option ℕ) (again : Script W ℕ)
      → Proceeds again
      → Proceeds (check_visible o element again)
  check_visible-Proceeds none again p = p
  check_visible-Proceeds (some element) again p = search page_rules

  pub first_visible-Proceeds :
      (selectors : List String) (not_found : Script W ℕ)
      → Proceeds not_found
      → Proceeds (first_visible o selectors not_found)
  unfolding first_visible
  first_visible-Proceeds [] not_found p = p
  first_visible-Proceeds (selector ∷ selectors) not_found p =
      let rest = first_visible-Proceeds selectors not_found p in
      Proceeds-bind (await (o.query selector)) _ (Proceeds-await (o.query selector))
        (λ element. check_visible-Proceeds element (first_visible o selectors not_found) rest)

  pub find_visible_input-Proceeds :
      (selectors : List String) (timeout : ℕ) (label : String)
      → Proceeds (find_visible_input o selectors timeout label)
  unfolding find_visible_input
  find_visible_input-Proceeds selectors timeout label = search (page_rules, first_visible-Proceeds)

  pub type_into-Proceeds :
      (selectors : List String) (text label : String) → Proceeds (type_into o selectors text label)
  unfolding type_into
  type_into-Proceeds selectors text label = search (page_rules, find_visible_input-Proceeds)

  pub press_submit-Proceeds : (button : Option ℕ) → Proceeds (press_submit o button)
  press_submit-Proceeds none = Proceeds-await (o.press_enter)
  press_submit-Proceeds (some button) = Proceeds-await (o.click_element button)

  pub submit_form-Proceeds : Proceeds (submit_form o)
  unfolding submit_form
  submit_form-Proceeds = search (page_rules, press_submit-Proceeds)

  pub click_and_wait_for_api-Proceeds :
      (selector url_pattern : String) → Proceeds (click_and_wait_for_api o selector url_pattern)
  unfolding click_and_wait_for_api
  click_and_wait_for_api-Proceeds selector url_pattern = search page_rules

  pub ruleset form_rules =
      (page_rules, find_visible_input-Proceeds, type_into-Proceeds, submit_form-Proceeds)
