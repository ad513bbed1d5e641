-- ===== src/Login.antt =====
-- web/src/pages/Login.tsx: the two steps of signing in, with the requests under way.
pub mod Invariant
pub mod Emails
pub mod View
mod Tests
use starbies_schedule_sync.Base.{
  String, ◌≡◌, Bool, true, false, Option, none, some, List, [], ◌∷◌, if◌then◌else◌,
}
use starbies_schedule_sync.Browser.{Thrown}
use starbies_schedule_sync.Api.Types.{User}
use starbies_schedule_sync.Api.Request.{error_message}
use starbies_schedule_sync.Api.Endpoints.{Endpoint, request_pin, verify_pin}

pub data LoginStep : Type 0 where
  enter_email enter_pin : LoginStep

pub record Login : Type 0 where
  pub email : String
  pub pin : String
  pub step : LoginStep
  pub loading : Bool
  pub error : String

abbrev pub mounted : Login
mounted = record { email = ""; pin = ""; step = enter_email; loading = false; error = "" }

-- `handleRequestPin` and `handleVerifyPin` up to their `await`, with the request; then what follows
-- the `await`, the `finally` block included.
abbrev start : Login → Login
start s = record s { loading = true; error = "" }

unfoldable pub handle_request_pin : Login → Endpoint × Login
handle_request_pin s = (request_pin s.email, start s)

unfoldable pub pin_requested : Login → Login
pin_requested s = record s { step = enter_pin; loading = false }

unfoldable pub handle_verify_pin : Login → Endpoint × Login
handle_verify_pin s = (verify_pin s.email s.pin, start s)

-- `onLogin(user)` is called before it.
unfoldable pub pin_verified : Login → Login
pin_verified s = record s { loading = false }

unfoldable pub request_failed : Thrown → Login → Login
request_failed e s = record s { error = error_message e; loading = false }

unfoldable pub use_different_email : Login → Login
use_different_email s = record s { step = enter_email; pin = ""; error = "" }

abbrev pub is_empty : List Endpoint → Bool
is_empty [] = true
is_empty (_ ∷ _) = false

-- The page with its requests under way, the emails to which a PIN was sent, what was typed into the
-- field of the email while a request was under way, and the last user that `onLogin` was given.
pub record Page : Type 0 where
  pub ui : Login
  pub pending : List Endpoint
  pub sent : List String
  pub typed_meanwhile : List String
  pub user : Option User

abbrev pub opened : Page
opened = record { ui = mounted; pending = []; sent = []; typed_meanwhile = []; user = none }

abbrev submit : Endpoint × Login → Page → Page
submit (request, ui) p = record p { ui = ui; pending = request ∷ p.pending }

abbrev pub type_into_email : String → Page → Page
type_into_email value p = record p {
  ui = record p.ui { email = value };
  typed_meanwhile = if is_empty p.pending then p.typed_meanwhile else value ∷ p.typed_meanwhile;
}

-- What may happen next. A form's submit button is disabled while `loading`, and then pressing Enter
-- does not submit it; the fields are never disabled.
pub data Step (p : Page) : Page → Type 0 where
  type_email : (value : String) → p.ui.step ≡ enter_email → Step p (type_into_email value p)
  type_pin :
      (value : String)
      → p.ui.step ≡ enter_pin
      → Step p (record p { ui = record p.ui { pin = value } })
  submit_email :
      p.ui.step ≡ enter_email → p.ui.loading ≡ false → Step p (submit (handle_request_pin p.ui) p)
  submit_pin :
      p.ui.step ≡ enter_pin → p.ui.loading ≡ false → Step p (submit (handle_verify_pin p.ui) p)
  pin_sent :
      (to : String) (rest : List Endpoint)
      → p.pending ≡ request_pin to ∷ rest
      → Step p (record p { ui = pin_requested p.ui; pending = rest; sent = to ∷ p.sent })
  signed_in :
      (to pin : String) (rest : List Endpoint) (u : User)
      → p.pending ≡ verify_pin to pin ∷ rest
      → Step p (record p { ui = pin_verified p.ui; pending = rest; user = some u })
  refused :
      (e : Thrown) (request : Endpoint) (rest : List Endpoint)
      → p.pending ≡ request ∷ rest
      → Step p (record p { ui = request_failed e p.ui; pending = rest })
  change_email : p.ui.step ≡ enter_pin → Step p (record p { ui = use_different_email p.ui })

pub data Reach (p : Page) : Page → Type 0 where
  here : Reach p p
  next : {q r : Page} → Reach p q → Step q r → Reach p r
