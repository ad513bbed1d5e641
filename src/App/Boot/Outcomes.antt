-- ===== src/App/Boot/Outcomes.antt =====
-- What the start of the client arrives at, as a function of the replies alone.
use starbies_schedule_sync.Base.{
  String, Bool, true, false, ◌≡◌, refl, Option, none, some, arith, eq_iff, if◌then◌else◌, str_eq,
  ◌∙◌, ap,
}
use starbies_schedule_sync.Browser.{Browser, Result, ok, err, pure, handle, catch, continue, ◌>>=◌}
use starbies_schedule_sync.Browser.Gives.{Gives, Gives->>=}
use starbies_schedule_sync.Api.Types.{User}
use starbies_schedule_sync.Api.Endpoints.{
  Endpoint, Answer, Network, config, me, dev_login, onboarding_status, update_timezone, api,
}
use starbies_schedule_sync.Api.Answers.{answer_to, value_of, api-answer}
use starbies_schedule_sync.App.Boot.{
  signed_out, signed_in, App, boot, enter, or_dev_login, ask_dev_mode, ask_me, ask_onboarded,
  ask_update, update_zone, sync_timezone,
}

abbrev read_or {ℓ κ} : {A : Type ℓ} {B : Type κ} → (A → B) → B → Option A → B
read_or f d none = d
read_or f d (some a) = f a

-- The user that the server knows, or else the one of a development login.
abbrev pub identified : Network → Option User
identified net =
    let dev =
      if read_or (λ c. c.dev_mode) false (answer_to net config)
      then answer_to net dev_login
      else none in
    read_or some dev (answer_to net me)

abbrev pub in_zone : String → User → User
in_zone tz user = if str_eq tz "" then user else record user { timezone = tz }

abbrev pub entered : Network → String → Option User → App
entered net tz none = record { session = signed_out; onboarded = false }
entered net tz (some user) = record {
  session = signed_in (in_zone tz user);
  onboarded = read_or (λ s. s.has_successful_scrape) false (answer_to net onboarding_status);
}

catch-read {ℓ κ} :
    {A : Type ℓ} {B : Type κ} (f : A → B) (d : B) (r : Result A × Browser) {o : Option A}
    → value_of r.0 ≡ o
    → (handle (λ _. pure d) (continue (λ a. pure (f a)) r)).0 ≡ ok (read_or f d o)
catch-read f d (ok a, b) h = rw (← h)
catch-read f d (err e, b) h = rw (← h)

read_or-some {ℓ} : {A : Type ℓ} (o : Option A) → read_or some none o ≡ o
read_or-some none = refl
read_or-some (some a) = refl

module _ (net : Network) where
  ask-Gives {κ} :
      {B : Type κ} (e : Endpoint) (f : Answer e → B) (d : B)
      → Gives (catch (do a ← api net e; pure (f a)) (λ _. pure d)) (read_or f d (answer_to net e))
  ask-Gives e f d b = catch-read f d (api net e b) (api-answer net e b)

  or_dev_login-Gives :
      (dev_mode : Bool) (found : Option User)
      → Gives
          (or_dev_login net dev_mode found)
          (read_or some (if dev_mode then answer_to net dev_login else none) found)
  or_dev_login-Gives true none b = ask-Gives dev_login some none b ∙ ap ok (read_or-some _)
  or_dev_login-Gives false none b = refl
  or_dev_login-Gives true (some u) b = refl
  or_dev_login-Gives _ (some u) b = refl

  update_zone-Gives :
      (tz : String) (user : User) → Gives (update_zone net tz user) (record user { timezone = tz })
  update_zone-Gives tz user =
      Gives->>= (ask_update net tz) (λ _. pure (record user { timezone = tz }))
        (ask-Gives (update_timezone tz) (λ _. tt) tt) (λ b. refl)

  sync_timezone-Gives :
      (tz : String) (user : User) → Gives (sync_timezone net tz user) (in_zone tz user)
  sync_timezone-Gives tz user b =
      ground (arith, update_zone-Gives tz user b, eq_iff tz "", eq_iff user.timezone tz)

  enter-Gives : (tz : String) (user : Option User) → Gives (enter net tz user) (entered net tz user)
  enter-Gives tz none = λ b. refl
  enter-Gives tz (some user) =
      Gives->>= (sync_timezone net tz user) _ (sync_timezone-Gives tz user) (
        Gives->>= (ask_onboarded net) _
          (ask-Gives onboarding_status (λ s. s.has_successful_scrape) false) (λ b. refl))

-- With whatever replies, the start of the client throws nothing and leaves the loading state: the
-- user is the one that the server reports, or else, in development mode, the one of a development
-- login, with the browser's time zone if it has one; nobody is signed in if neither is there; and
-- the onboarding is complete exactly if the server answers that a scrape has succeeded.
pub boot_lem :
    (net : Network) (tz : String) (b : Browser)
    → (boot net tz b).0 ≡ ok (entered net tz (identified net))
unfolding boot
boot_lem net tz =
    let dev_mode = read_or (λ c. c.dev_mode) false (answer_to net config) in
    let found = answer_to net me in
    Gives->>= (ask_dev_mode net) _ (ask-Gives net config (λ c. c.dev_mode) false) (
      Gives->>= (ask_me net) _ (λ b. ask-Gives net me some none b ∙ ap ok (read_or-some found))
        (Gives->>= (or_dev_login net dev_mode found) (enter net tz)
          (or_dev_login-Gives net dev_mode found) (enter-Gives net tz (identified net))))
