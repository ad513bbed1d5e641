-- ===== src/Scraper/Page.antt =====
-- The page helpers of scraper/scrape.js, over a browser `o`.
pub mod Polling
pub mod Effects
use Prim.Native.String.{◌++◌ as ◌<>◌}
use starbies_schedule_sync.Base.{
  ℕ, zero, suc, ◌-◌, ◌+◌, ltb, String, Bool, true, false, Option, none, some, List, [], ◌∷◌, ◌++◌,
  if◌then◌else◌,
}
use starbies_schedule_sync.Scraper.Script.{
  Reply, Settled, value, threw, Run, Script, Outside, screenshot_taken, screenshot_failed, pure,
  throw, catch, ◌>>=◌, ◌>>◌, log, await,
}

-- `screenshots.push({ label, data })`
unfoldable pub keep_screenshot : {W : Type 0} → String → String → Script W Unit
keep_screenshot label base64 s = (
  value tt,
  record s { screenshots = s.screenshots ++ record { label = label; base64 = base64 } ∷ [] },
)

-- `Promise.all`: both promises run; the model takes the first one's error first.
abbrev first_error : Settled Unit → Settled Unit → Settled Unit
first_error (threw message) _ = threw message
first_error (value _) r = r

unfoldable pub both : {W : Type 0} → Script W Unit → Script W Unit → Script W Unit
both m n s = let (r, s') = m s in let (r', s'') = n s' in (first_error r r', s'')

-- The test of the loop of `pollUntil`, and the rest of a round after the check.
abbrev pub while_time : {W A : Type 0} → Bool → Script W (Option A) → Script W (Option A)
while_time true round s = round s
while_time false round s = (value none, s)

abbrev pub go_on :
    {W A : Type 0} → Script W Unit → Script W (Option A) → Option A → Script W (Option A)
go_on wait again (some a) = pure (some a)
go_on wait again none = wait >> again

-- The loop, on fuel: the test on the clock, the check, and the wait.
unfoldable pub poll :
    {W A : Type 0} → ℕ → ℕ → Script W (Option A) → Script W Unit → ℕ → Script W (Option A)
poll zero start check wait max_ms s = (value none, s)
poll (suc fuel) start check wait max_ms s =
    while_time (ltb (s.time - start) max_ms)
      (check >>= go_on wait (poll fuel start check wait max_ms)) s

abbrev join : String → List String → String
join separator [] = ""
join separator (x ∷ []) = x
join separator (x ∷ y ∷ ys) = x <> (separator <> join separator (y ∷ ys))

module _ {W : Type 0} (o : Outside W) where
  -- `setTimeout` waits for that long at least.
  unfoldable pub delay : ℕ → Script W Unit
  delay ms s = let (_, s') = await (o.wait ms) s in (value tt, record s' { time = s'.time + ms })

  -- `pollUntil`; each round waits, so that `max_ms` rounds are enough.
  unfoldable pub poll_until : {A : Type 0} → Script W (Option A) → ℕ → Script W (Option A)
  poll_until check max_ms s = poll (suc (suc max_ms)) s.time check (delay 500) max_ms s

  unfoldable pub screenshot : String → Script W Unit
  screenshot label =
      catch
        (do
          base64 ← await (o.take_screenshot)
          keep_screenshot label base64
          log (screenshot_taken label))
        (λ message. log (screenshot_failed label message))

  unfoldable pub get_title : Script W String
  get_title = catch (await (o.title)) (λ _. do delay 500; catch (await (o.title)) (λ _. pure ""))

  unfoldable pub evaluate : {A : Type 0} → (W → Reply W A) → Script W A
  evaluate operation = catch (await operation) (λ _. do delay 500; await operation)

  -- The loop over the selectors, once one of them is visible.
  abbrev pub check_visible : Option ℕ → Script W ℕ → Script W ℕ
  check_visible none next = next
  check_visible (some element) next = do
    visible ← catch (await (o.is_intersecting_viewport element)) (λ _. pure false)
    if visible then pure element else next

  unfoldable pub first_visible : List String → Script W ℕ → Script W ℕ
  first_visible [] not_found = not_found
  first_visible (selector ∷ selectors) not_found = do
    element ← await (o.query selector)
    check_visible element (first_visible selectors not_found)

  unfoldable pub find_visible_input : List String → ℕ → String → Script W ℕ
  unfolding first_visible
  find_visible_input selectors timeout label = do
    await (o.wait_for_visible timeout selectors)
    delay 500
    first_visible selectors (do
      screenshot (label <> "-not-found")
      throw ("No visible " <> (label <> (" found (tried: " <> (join ", " selectors <> ")")))))

  unfoldable pub type_into : List String → String → String → Script W Unit
  type_into selectors text label = do
    element ← find_visible_input selectors 15000 label
    await (o.type element text)

  abbrev pub press_submit : Option ℕ → Script W Unit
  press_submit (some button) = await (o.click_element button)
  press_submit none = await (o.press_enter)

  unfoldable pub submit_form : Script W Unit
  submit_form = do
    button ← await (o.query "input[type=\"submit\"], button[type=\"submit\"], button")
    both (press_submit button) (await (o.wait_for_navigation))

  -- Whether a response came; the source gives the response or null, and no caller reads it. The wait
  -- starts before the click and so misses no response.
  unfoldable pub click_and_wait_for_api : String → String → Script W Bool
  click_and_wait_for_api selector url_pattern = do
    delay 1000
    await (o.click selector)
    catch (do await (o.wait_for_response url_pattern 8000); pure true) (λ _. pure false)
