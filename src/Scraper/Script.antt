-- ===== src/Scraper/Script.antt =====
-- The awaited computations of scraper/scrape.js, over what the script keeps (its log, its screenshots,
-- the captured weeks) and over the browser and the server, which are a parameter.
pub mod Progress
use starbies_schedule_sync.Base.{
  ℕ, ◌+◌, ◌==◌, String, Bool, true, false, ◌&&◌, Option, none, some, List, [], ◌∷◌, ◌++◌, length,
  if◌then◌else◌,
}
use starbies_schedule_sync.Api.Request.{includes}
use starbies_schedule_sync.Scraper.Schedule.{Day, Week, Shift}

-- The lines of the log, one constructor for each template; the prefix "[scraper] " is left out.
pub data Line : Type 0 where
  screenshot_taken : (label : String) → Line
  screenshot_failed : (label message : String) → Line
  matched_question : (question : String) → Line
  no_question_matched : Line
  fetching_credentials launching_browser : Line
  captured_week : (days total : ℕ) → Line
  navigating_to_login sas_login waiting_for_authentication bypassing entering_password : Line
  authenticated authentication_timeout : Line
  navigating_to_schedule schedule_page_loaded : Line
  week_back week_forward : (count : ℕ) → Line
  too_few_weeks : (expected captured : ℕ) → Line
  counted : (weeks shifts : ℕ) → Line
  submitted : Line
  error_line : (message : String) → Line

pub record Screenshot : Type 0 where
  pub label : String
  pub base64 : String

pub record SecurityQuestion : Type 0 where
  pub question : Option String
  pub answer : String

-- The keys of the credentials' document.
pub record Credentials : Type 0 where
  pub username : Option String
  pub password : Option String
  pub security_questions : Option (List SecurityQuestion)

-- What a promise settles with: a value, or the message of an `Error`.
pub data Settled (A : Type 0) : Type 0 where
  value : A → Settled A
  threw : (message : String) → Settled A

-- A response that the page receives: its document, if it parses.
pub record PageResponse : Type 0 where
  pub url : String
  pub document : Option Week

-- What an operation of the browser or of the network gives: how it settles, the time it takes, and
-- the responses that the page receives meanwhile, whose bodies are read by its end.
pub record Reply (W A : Type 0) : Type 0 where
  pub settled : Settled A
  pub elapsed : ℕ
  pub responses : List PageResponse
  pub world : W

pub record Response (A : Type 0) : Type 0 where
  pub ok : Bool
  pub status : ℕ
  pub json : Settled A

-- The bodies that the script posts, with their paths.
pub data Post : Type 0 where
  shifts_post : (shifts : List Shift) → (home_site : Option String) → Post
  failure_post : (logs : List Line) → (screenshots : List String) → Post

-- Puppeteer and `fetch`. The functions that the source passes to `page.evaluate` are operations.
pub record Outside (W : Type 0) : Type 0 where
  pub get_credentials : W → Reply W (Response Credentials)
  pub post : Post → W → Reply W (Response Unit)
  pub launch : W → Reply W Unit
  pub close : W → Reply W Unit
  pub new_page : W → Reply W Unit
  pub goto : (url : String) → W → Reply W Unit
  pub title : W → Reply W String
  pub page_url : W → String
  pub take_screenshot : W → Reply W String
  -- `page.waitForFunction` on the selectors, `page.$`, and the methods of an element's handle
  pub wait_for_visible : (timeout : ℕ) → (selectors : List String) → W → Reply W Unit
  pub query : (selector : String) → W → Reply W (Option ℕ)
  pub is_intersecting_viewport : ℕ → W → Reply W Bool
  pub type : ℕ → (text : String) → W → Reply W Unit
  pub click_element : ℕ → W → Reply W Unit
  pub press_enter : W → Reply W Unit
  pub wait_for_navigation : W → Reply W Unit
  pub click : (selector : String) → W → Reply W Unit
  pub wait_for_response : (url_pattern : String) → (timeout : ℕ) → W → Reply W Unit
  -- the four functions of `page.evaluate`
  pub has_bypass_link : W → Reply W Bool
  pub click_bypass_link : W → Reply W Unit
  pub body_text : W → Reply W String
  pub set_location : (url : String) → W → Reply W Unit
  -- what passes while the script waits
  pub wait : (ms : ℕ) → W → Reply W Unit

-- What the script keeps. `posts` and `closes` record what was asked of the server and the browser.
pub record Run (W : Type 0) : Type 0 where
  pub log_lines : List Line
  pub screenshots : List Screenshot
  pub captured_weeks : List Week
  pub time : ℕ
  pub posts : List Post
  pub closes : ℕ
  pub world : W

abbrev pub Script : Type 0 → Type 0 → Type 0
Script W A = Run W → Settled A × Run W

module _ {W : Type 0} where
  module _ {A : Type 0} where
    abbrev pub pure : A → Script W A
    pure a s = (value a, s)

    abbrev pub throw : String → Script W A
    throw message s = (threw message, s)

    abbrev pub handle : (String → Script W A) → Settled A × Run W → Settled A × Run W
    handle h (value a, s) = (value a, s)
    handle h (threw message, s) = h message s

    -- `try { m } catch (e) { h(e) }`
    unfoldable pub catch : Script W A → (String → Script W A) → Script W A
    catch m h s = handle h (m s)

  module _ {A B : Type 0} where
    abbrev pub continue : (A → Script W B) → Settled A × Run W → Settled B × Run W
    continue f (value a, s) = f a s
    continue f (threw message, s) = (threw message, s)

    infixl 5 ◌>>=◌ ◌>>◌
    unfoldable pub ◌>>=◌ : Script W A → (A → Script W B) → Script W B
    ◌>>=◌ m f s = continue f (m s)

    abbrev pub ◌>>◌ : Script W A → Script W B → Script W B
    m >> n = m >>= λ _. n

    -- `try { m } finally { f }`: what `f` throws replaces how `m` settled.
    abbrev pub finish : Settled A → Settled B × Run W → Settled A × Run W
    finish r (value _, s) = (r, s)
    finish r (threw message, s) = (threw message, s)

    unfoldable pub finally : Script W A → Script W B → Script W A
    finally m f s = let (r, s') = m s in finish r (f s')

  -- `log`
  unfoldable pub log : Line → Script W Unit
  log line s = (value tt, record s { log_lines = s.log_lines ++ line ∷ [] })

  abbrev pub capture_days : Option (List Day) → Week → Run W → Run W
  capture_days none week s = s
  capture_days (some days) week s = record s {
    captured_weeks = s.captured_weeks ++ week ∷ [];
    log_lines = s.log_lines ++ captured_week (length days) (length s.captured_weeks + 1) ∷ [];
  }

  abbrev pub capture : Option Week → Run W → Run W
  capture none s = s
  capture (some week) s = capture_days week.days week s

  -- The listener of `page.on('response', …)`.
  unfoldable pub on_response : PageResponse → Run W → Run W
  on_response r s = if includes r.url "/mySchedules/" then capture r.document s else s

  unfoldable pub on_responses : List PageResponse → Run W → Run W
  on_responses [] s = s
  on_responses (r ∷ rs) s = on_responses rs (on_response r s)

  -- An awaited operation of the browser or of the network.
  unfoldable pub await : {A : Type 0} → (W → Reply W A) → Script W A
  await operation s =
      let reply = operation s.world in
      (
        reply.settled,
        on_responses reply.responses
            (record s { time = s.time + reply.elapsed; world = reply.world }),
      )
