-- ===== src/Server/Accounts/SignIn.antt =====
-- Signing in: `requestPin` and `verifyPin` of cmd/app/server.go, and the steps that change users,
-- sessions and PINs, as a history of requests and of ticks in the background. Each handler is one
-- step; what it takes from outside stands in the request, with none for an error: the validated
-- body, the random PIN, token and ids, and whether the mail was sent.
pub mod History
pub mod Sessions
pub mod Steps
pub mod Origin
pub mod RoundTrip
use starbies_schedule_sync.Base.{ℕ, String, Bool, true, false, Option, none, some, List, [], ◌∷◌}
use starbies_schedule_sync.Server.Pins.{VerifyError, clean_up, new_pin_store, store, verify}
use starbies_schedule_sync.Server.Accounts.{
  Accounts, Fresh, Reply, User, bad_request, create_session, delete_account, expire_sessions,
  find_or_create_user, internal_server_error, logout, ok, unauthorized, update_timezone,
}

-- `requestPin` once the PIN is stored
abbrev pub after_store :
    String → Bool → Option User × List User → Accounts → Reply String × Accounts
after_store email sent (none, users) s = (internal_server_error, record s { users = users })
after_store email false (some u, users) s = (internal_server_error, record s { users = users })
after_store email true (some u, users) s = (ok email, record s { users = users })

-- `user_id` is the one that `authMiddleware` has found, `user` likewise.
pub data Request : Type 0 where
  requested :
      (now : ℕ)
      → (body : Option String) → (pin : Option String) → (fresh : Option Fresh) → (sent : Bool)
      → Request
  verified :
      (now : ℕ)
      → (body : Option (String × String)) → (fresh : Option Fresh) → (token : Option String)
      → Request
  logged_out : (cookie : Option String) → Request
  deleted : (user_id : String) → Request
  timezone_updated : (now : ℕ) → (user : User) → (body : Option String) → Request
  cleaned_up : (now : ℕ) → Request
  expired : (now : ℕ) → Request

abbrev pub opened : Accounts
opened = record { pins = new_pin_store; users = []; sessions = [] }

module _ (to_lower hash : String → String) (is_location : String → Bool) where
  unfoldable pub request_pin :
      ℕ → Option String → Option String → Option Fresh → Bool → Accounts → Reply String × Accounts
  unfolding store find_or_create_user
  request_pin now none pin fresh sent s = (bad_request, s)
  request_pin now (some email) none fresh sent s = (internal_server_error, s)
  request_pin now (some email) (some pin) fresh sent s =
      after_store email sent (find_or_create_user now email fresh s.users)
        (record s { pins = store to_lower now email pin s.pins })

  -- `verifyPin` once the user is there: a session, and the token as a cookie.
  abbrev pub open_session :
      ℕ → Option String → Option User × List User → Accounts → Reply (User × String) × Accounts
  open_session now token (none, users) s = (internal_server_error, record s { users = users })
  open_session now none (some u, users) s = (internal_server_error, record s { users = users })
  open_session now (some token) (some u, users) s = (
    ok (u, token),
    record s { users = users; sessions = create_session hash now u.id token s.sessions },
  )

  abbrev pub after_verify :
      ℕ
      → String
      → Option Fresh
      → Option String
      → Option VerifyError
      → Accounts
      → Reply (User × String) × Accounts
  after_verify now email fresh token (some error) s = (unauthorized, s)
  after_verify now email fresh token none s =
      open_session now token (find_or_create_user now email fresh s.users) s

  unfoldable pub verify_pin :
      ℕ
      → Option (String × String)
      → Option Fresh
      → Option String
      → Accounts
      → Reply (User × String) × Accounts
  unfolding verify find_or_create_user create_session
  verify_pin now none fresh token s = (bad_request, s)
  verify_pin now (some (email, pin)) fresh token s =
      let (error, pins) = verify to_lower now email pin s.pins in
      after_verify now email fresh token error (record s { pins = pins })

  unfoldable pub step : Request → Accounts → Accounts
  unfolding request_pin verify_pin logout delete_account update_timezone clean_up expire_sessions
  step (requested now body pin fresh sent) s = (request_pin now body pin fresh sent s).1
  step (verified now body fresh token) s = (verify_pin now body fresh token s).1
  step (logged_out cookie) s = logout hash cookie s
  step (deleted user_id) s = delete_account user_id s
  step (timezone_updated now user body) s = (update_timezone is_location now user body s).1
  step (cleaned_up now) s = record s { pins = clean_up now s.pins }
  step (expired now) s = expire_sessions now s

  unfoldable pub run : List Request → Accounts → Accounts
  unfolding step
  run [] s = s
  run (r ∷ rs) s = run rs (step r s)
