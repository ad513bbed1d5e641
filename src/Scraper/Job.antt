-- ===== src/Scraper/Job.antt =====
-- The API calls of scraper/scrape.js, `run`, and what follows it.
-- `o` is the browser with the network, `date` is `Date`, `to_lower_case` the method of that name.
pub mod Effects
pub mod Leaves
pub mod Reports
use Prim.Native.String.{◌++◌ as ◌<>◌, slice}
use starbies_schedule_sync.Base.{
  ℕ, zero, suc, ◌+◌, ◌*◌, ◌/◌, ◌%◌, ltb, leb, String, Bool, true, false, not, ◌&&◌, ◌||◌, Option,
  none, some, List, [], ◌∷◌, ◌++◌, map, length, or_else, if◌then◌else◌, str_eq,
}
use starbies_schedule_sync.Base.Int.{ℤ}
use starbies_schedule_sync.Api.Request.{includes}
use starbies_schedule_sync.Scraper.Schedule.{
  Week, text_or, name_of, merge_schedule_data, extract_shifts,
}
use starbies_schedule_sync.Scraper.Answers.{find_security_answer}
use starbies_schedule_sync.Scraper.Script.{
  Line, fetching_credentials, launching_browser, navigating_to_login, sas_login,
  waiting_for_authentication, bypassing, entering_password, authenticated, authentication_timeout,
  navigating_to_schedule, schedule_page_loaded, week_back, week_forward, too_few_weeks, counted,
  submitted, error_line, Screenshot, SecurityQuestion, Credentials, Reply, Settled, value, threw,
  Run, Script, Outside, Response, Post, shifts_post, failure_post, pure, throw, catch, finally,
  ◌>>=◌, ◌>>◌, log, await,
}
use starbies_schedule_sync.Scraper.Page.{
  delay, poll_until, screenshot, get_title, evaluate, find_visible_input, type_into, submit_form,
  click_and_wait_for_api,
}

-- A number in a template, of three digits at most: a status.
abbrev digit : ℕ → String
digit n = slice "0123456789" n (n + 1)

abbrev status_text : ℕ → String
status_text n =
    if ltb n 10
    then digit n
    else if ltb n 100
    then digit (n / 10) <> digit (n % 10)
    else digit (n / 100) <> (digit (n / 10 % 10) <> digit (n % 10))

abbrev pub path_of : Post → String
path_of (shifts_post _ _) = "/internal/scrape/shifts"
path_of (failure_post _ _) = "/internal/scrape/failure"

abbrev username_selectors : List String
username_selectors =
    "input[type=\"text\"]" ∷ "input[name=\"username\"]" ∷ "input#username" ∷ "input[name=\"user\"]"
    ∷ "input.username"
    ∷ "form input:not([type=\"submit\"]):not([type=\"button\"]):not([type=\"hidden\"])" ∷ []

abbrev password_selectors : List String
password_selectors = "input[type=\"password\"]" ∷ []

abbrev login_url : String
login_url = "https://starbucks-wfmr.jdadelivers.com/retail/rp/login"

abbrev home_url : String
home_url = "https://starbucks-wfmr.jdadelivers.com/retail/portal"

abbrev schedule_url : String
schedule_url =
    "https://starbucks-wfmr.jdadelivers.com/retail/portal/page?libraryContext=84bf32f75f0f0a6c1e719ee3bd358e7fc5a5eb2c8ecbff333a1280869185e4cf&menu=Partner-Self-Service-MeZVjkkVQXSIxAIfoPKGvA#wfmess-myschedule////"

abbrev pub target_domain : String
target_domain = "starbucks-wfmr.jdadelivers.com"

abbrev pub weeks_each_direction : ℕ
weeks_each_direction = 1

abbrev pub expected_weeks : ℕ
expected_weeks = weeks_each_direction * 2 + 1

-- What `pollUntil` gives for the authentication, other than null.
pub data Authentication : Type 0 where
  domain bypass : Authentication

-- The three fields, once none of them is missing.
pub record Keys : Type 0 where
  pub username : String
  pub password : String
  pub security_questions : List SecurityQuestion

abbrev keys_if_given : String → String → List SecurityQuestion → Option Keys
keys_if_given username password questions =
    if not (str_eq username "") && (not (str_eq password "") && leb 1 (length questions))
    then some (record { username = username; password = password; security_questions = questions })
    else none

unfoldable pub keys_of : Credentials → Option Keys
keys_of creds =
    keys_if_given (or_else creds.username "") (or_else creds.password "")
      (or_else creds.security_questions [])

-- What `name || null` gives.
abbrev non_empty_text : Option String → Option String
non_empty_text none = none
non_empty_text (some text) = if str_eq text "" then none else some text

module _ {W : Type 0} (o : Outside W) (api_url : String) where
  abbrev pub settle : {A : Type 0} → Settled A → Script W A
  settle r s = (r, s)

  -- `if (!res.ok) throw …; return res.json()`
  abbrev pub json_of : {A : Type 0} → Response A → String → Script W A
  json_of res call =
      if res.ok then settle (res.json) else throw (call <> (" returned " <> status_text res.status))

  unfoldable pub fetch_credentials : Script W Credentials
  fetch_credentials = do
    res ← await (o.get_credentials)
    json_of res ("GET " <> (api_url <> "/internal/scrape/credentials"))

  -- `fetch` with method POST
  unfoldable pub send : Post → Script W (Response Unit)
  send body s = await (o.post body) (record s { posts = s.posts ++ body ∷ [] })

  unfoldable pub post_json : Post → Script W Unit
  unfolding send
  post_json body = do res ← send body; json_of res ("POST " <> (api_url <> path_of body))

module _ {W : Type 0} (o : Outside W) where
  abbrev when : Bool → Script W Unit → Script W Unit
  when test m = if test then m else pure tt

  unfoldable pub enter_username : String → Script W Unit
  enter_username username = do
    log sas_login
    type_into o username_selectors username "username"
    submit_form o
    screenshot o "after-username"

  -- Step 1: the login page
  unfoldable pub open_login_page : String → Script W Unit
  unfolding enter_username
  open_login_page username = do
    log navigating_to_login
    await (o.goto login_url)
    screenshot o "login-page"
    title ← get_title o
    when (includes title "SAS - Level 3") (enter_username username)

  abbrev if_bypass : Bool → Option Authentication
  if_bypass true = some bypass
  if_bypass false = none

  unfoldable pub look_for_bypass : Script W (Option Authentication)
  look_for_bypass = do
    has_bypass ← catch (evaluate o (o.has_bypass_link)) (λ _. pure false)
    pure (if_bypass has_bypass)

  -- The check of the first `pollUntil`.
  unfoldable pub check_authenticated : Script W (Option Authentication)
  check_authenticated s =
      (if includes (o.page_url s.world) target_domain then pure (some domain) else look_for_bypass)
        s

module _ {W : Type 0} (o : Outside W) (to_lower_case : String → String) where
  unfoldable pub answer_questions : Keys → Script W Unit
  answer_questions keys = do
    log bypassing
    screenshot o "push-notification"
    evaluate o (o.click_bypass_link)
    find_visible_input o password_selectors 15000 "security-answer"
    text ← catch (evaluate o (o.body_text)) (λ _. pure "")
    answer ← find_security_answer to_lower_case text keys.security_questions
    type_into o password_selectors answer "security-answer"
    screenshot o "security-question"
    submit_form o
    log entering_password
    type_into o password_selectors keys.password "password"
    screenshot o "password-entry"
    submit_form o

  abbrev pub proceed : Option Authentication → Keys → Script W Unit
  proceed (some bypass) keys = answer_questions keys
  proceed (some domain) keys = log authenticated
  proceed none keys = log authentication_timeout

  -- Step 2: authentication
  unfoldable pub authenticate : Keys → Script W Unit
  unfolding answer_questions check_authenticated look_for_bypass
  authenticate keys = do
    log waiting_for_authentication
    found ← poll_until o (check_authenticated o) 60000
    proceed found keys
    screenshot o "post-auth"

-- `pollUntil(page, () => capturedWeeks.length >= expected, …)`
unfoldable pub check_captured : {W : Type 0} → Script W (Option Unit)
check_captured s =
    (value (if leb expected_weeks (length s.captured_weeks) then some tt else none), s)

-- The log of how many weeks are missing.
unfoldable pub warn_if_few : {W : Type 0} → Script W Unit
warn_if_few s =
    (if ltb (length s.captured_weeks) expected_weeks
        then log (too_few_weeks expected_weeks (length s.captured_weeks))
        else pure tt)
      s

module _ {W : Type 0} (o : Outside W) where
  -- Step 3: the schedule's page
  unfoldable pub open_schedule : Script W Unit
  open_schedule = do
    log navigating_to_schedule
    await (o.goto home_url)
    evaluate o (o.set_location schedule_url)
    catch (find_visible_input o ("#button-1028" ∷ []) 15000 "prev-week button")
        (λ message. do screenshot o "schedule-load-failed"; throw message)
    find_visible_input o ("#button-1029" ∷ []) 15000 "next-week button"
    log schedule_page_loaded
    screenshot o "schedule-page"

  -- The two loops from the round `i` on, with the rounds left.
  unfoldable pub click_weeks : String → (ℕ → Line) → ℕ → ℕ → Script W Unit
  click_weeks button line zero i = pure tt
  click_weeks button line (suc rounds) i = do
    click_and_wait_for_api o button "/mySchedules/"
    log (line (i + 1))
    click_weeks button line rounds (i + 1)

  -- Step 4: the weeks
  unfoldable pub capture_weeks : Script W Unit
  unfolding click_weeks check_captured warn_if_few
  capture_weeks = do
    click_weeks "#button-1028" week_back weeks_each_direction 0
    click_weeks "#button-1029" week_forward (weeks_each_direction * 2) 0
    poll_until o check_captured 5000
    warn_if_few
    screenshot o "schedule-captured"

module _ {W : Type 0} (o : Outside W) (api_url : String) (to_lower_case : String → String)
    (date : String → Option ℤ) where
  abbrev pub report_of : List Week → Post
  report_of weeks =
      let merged = merge_schedule_data date weeks in
      shifts_post (extract_shifts merged) (non_empty_text (name_of merged.home_site))

  -- Step 5: the shifts
  unfoldable pub submit_results : Script W Unit
  submit_results s =
      (do
        log (
            counted (length s.captured_weeks)
              (length (extract_shifts (merge_schedule_data date s.captured_weeks))))
        post_json o api_url (report_of s.captured_weeks)
        log submitted)
        s

  -- The `try` block
  unfoldable pub session : Keys → Script W Unit
  session keys = do
    await (o.new_page)
    open_login_page o keys.username
    authenticate o to_lower_case keys
    open_schedule o
    capture_weeks o
    submit_results

  -- `browser.close()`
  unfoldable pub close_browser : Script W Unit
  close_browser s = await (o.close) (record s { closes = s.closes + 1 })

  -- `try { … } finally { await browser.close(); }`
  unfoldable pub in_browser : Keys → Script W Unit
  in_browser keys = finally (session keys) close_browser

  abbrev pub with_browser : Option Keys → Script W Unit
  with_browser none = throw "Missing required credential fields"
  with_browser (some keys) = do log launching_browser; await (o.launch); in_browser keys

  unfoldable pub run : Script W Unit
  run = do
    log fetching_credentials
    creds ← fetch_credentials o api_url
    with_browser (keys_of creds)

  -- `run().catch(…)`: the report of the failure; what the report throws goes to stderr only.
  unfoldable pub report_failure : String → Script W Unit
  report_failure message s =
      (do
        log (error_line message)
        catch
            (λ t.
              post_json o api_url
                (failure_post t.log_lines (map (λ (x : Screenshot). x.base64) t.screenshots)) t)
            (λ _. pure tt))
        s

  abbrev pub exit_of : Settled Unit × Run W → ℕ × Run W
  exit_of (value _, s) = (0, s)
  exit_of (threw message, s) = let (_, t) = report_failure message s in (1, t)

  -- The exit status of the process, and what it leaves.
  unfoldable pub main : Run W → ℕ × Run W
  main s = exit_of (run s)

abbrev is_missing : Option String → Bool
is_missing none = true
is_missing (some text) = str_eq text ""

-- The script: without its two environment variables it exits before it does anything.
unfoldable pub start :
    {W : Type 0}
    → Outside W
    → (String → String)
    → (String → Option ℤ)
    → (scrape_key scrape_api_url : Option String) → Run W
    → ℕ × Run W
start o to_lower_case date scrape_key scrape_api_url s =
    if is_missing scrape_key || is_missing scrape_api_url
    then (1, s)
    else main o (or_else scrape_api_url "") to_lower_case date s
