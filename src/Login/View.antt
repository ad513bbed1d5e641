-- ===== src/Login/View.antt =====
-- What web/src/pages/Login.tsx renders, and what submitting the form that it shows does.
use Prim.Native.String.{◌++◌}
use mathlib.Core.Path.{subst}
use starbies_schedule_sync.Base.{
  Has, String, ◌≡◌, ap, ◌⊎◌, inl, inr, refl, Bool, false, Option, none, some, arith, is_some,
  if◌then◌else◌,
}
use starbies_schedule_sync.Browser.Widgets.{Button, shown}
use starbies_schedule_sync.Api.Endpoints.{Endpoint}
use starbies_schedule_sync.Login.{
  Login, LoginStep, enter_email, enter_pin, Page, is_empty, opened, submit, handle_request_pin,
  handle_verify_pin, Step, submit_email, submit_pin, Reach,
}
use starbies_schedule_sync.Login.Invariant.{Reach-OneRequest}
use starbies_schedule_sync.Login.Emails.{Reach-Inv}

-- The two forms by their handler, each with the value of its field; only the second has the button
-- that goes back to the first.
pub data Form : Type 0 where
  email_form : (value : String) → Form
  pin_form : (value : String) → Form

pub record View : Type 0 where
  pub description : String
  pub form : Form
  pub error : Option String
  pub submit : Button

abbrev describe : LoginStep → String → String
describe enter_email email = "Enter your email to receive a sign-in PIN"
describe enter_pin email = "Check your email at " ++ (email ++ " for a 6-digit PIN")

abbrev form_of : LoginStep → Login → Form
form_of enter_email s = email_form s.email
form_of enter_pin s = pin_form s.pin

abbrev label_of : LoginStep → Bool → String
label_of enter_email loading = if loading then "Sending…" else "Send PIN"
label_of enter_pin loading = if loading then "Signing in…" else "Sign in"

unfoldable pub render : Login → View
render s = record {
  description = describe s.step s.email;
  form = form_of s.step s;
  error = shown s.error;
  submit = record { label = label_of s.step s.loading; disabled = s.loading };
}

-- The `onSubmit` of each form.
abbrev on_submit : Form → Login → Endpoint × Login
on_submit (email_form _) s = handle_request_pin s
on_submit (pin_form _) s = handle_verify_pin s

-- Submitting the form that is shown: a disabled button submits nothing.
unfoldable pub submit_shown : Login → Option (Endpoint × Login)
unfolding render
submit_shown s =
    let view = render s in if view.submit.disabled then none else some (on_submit view.form s)

LoginStep-cases : (step : LoginStep) → (step ≡ enter_email) ⊎ (step ≡ enter_pin)
LoginStep-cases enter_email = inl refl
LoginStep-cases enter_pin = inr refl

-- A form that can be submitted sends what its own handler sends.
submit_shown-handler :
    (s : Login) (sent : Endpoint × Login)
    → submit_shown s ≡ some sent
    → (s.loading ≡ false)
      × (s.step ≡ enter_email → handle_request_pin s ≡ sent)
      × (s.step ≡ enter_pin → handle_verify_pin s ≡ sent)
unfolding submit_shown render
submit_shown-handler s sent h = ground arith

submit_shown-Step :
    (p : Page) (sent : Endpoint × Login) → submit_shown p.ui ≡ some sent → Step p (submit sent p)
submit_shown-Step p sent h =
    let (ready, email, pin) = submit_shown-handler p.ui sent h in
    elim (LoginStep-cases p.ui.step) [
      | inl e ↦ subst (λ r. Step p (submit r p)) (email e) (submit_email e ready)
      | inr e ↦ subst (λ r. Step p (submit r p)) (pin e) (submit_pin e ready)
    ]

-- In every reachable state, the form that is shown can be submitted exactly while no request is
-- under way, and what submitting it does is a step of the page.
pub Reach-submit_shown :
    {p : Page}
    → Reach opened p
    → (is_some (submit_shown p.ui) ≡ is_empty p.pending)
      × ((sent : Endpoint × Login) → submit_shown p.ui ≡ some sent → Step p (submit sent p))
unfolding submit_shown render
Reach-submit_shown {p = p} reach = (ground (arith, Reach-OneRequest reach), submit_shown-Step p)

form_of-pin_form :
    (step : LoginStep) (s : Login) (pin : String) → form_of step s ≡ pin_form pin → step ≡ enter_pin
form_of-pin_form enter_email s pin h = ground arith
form_of-pin_form enter_pin s pin h = refl

-- Whenever the form for the PIN is shown, the text above it names an email to which a PIN was sent, or
-- one that was typed while a request was under way.
pub render-Has :
    (p : Page) (pin : String)
    → Reach opened p
    → (render p.ui).form ≡ pin_form pin
    → ((render p.ui).description ≡ "Check your email at " ++ (p.ui.email ++ " for a 6-digit PIN"))
      × (Has p.ui.email p.sent ⊎ Has p.ui.email p.typed_meanwhile)
unfolding render
render-Has p pin reach h =
    let e = form_of-pin_form p.ui.step p.ui pin h in
    (ap (λ step. describe step p.ui.email) e, (Reach-Inv reach).reached e)
