-- ===== src/Server/Accounts/SignIn/History.antt =====
-- What a history of requests says of a session, and what it does to the PIN store.
use mathlib.Core.List.{append-nil, append_assoc}
use starbies_schedule_sync.Base.{
  ℕ, ◌+◌, ◌≡◌, refl, sym, ap, ◌∙◌, String, Bool, true, false, not, ◌&&◌, ◌||◌, Option, none, some,
  List, [], ◌∷◌, ◌++◌, All, if_either, str_eq,
}
use starbies_schedule_sync.Server.Pins.{
  Event, PinStore, VerifyError, stored, verified as pin_verified, ticked, store, verify,
  step as pin_step, run as pin_run,
}
use starbies_schedule_sync.Server.Pins.Accepted.{IsPending}
use starbies_schedule_sync.Server.Accounts.{
  Accounts, Fresh, Reply, User, delete_account, expire_sessions, find_or_create_user, logout,
  session_duration, unix, update_timezone,
}
use starbies_schedule_sync.Server.Accounts.SignIn.{
  Request, requested, verified, logged_out, deleted, timezone_updated, cleaned_up, expired,
  request_pin, verify_pin, step, after_store, after_verify, open_session,
}

-- What the PIN store sees of a request.
abbrev pub pin_event : Request → List Event
pin_event (requested now (some email) (some pin) fresh sent) = stored now email pin ∷ []
pin_event (verified now (some (email, pin)) fresh token) = pin_verified now email pin ∷ []
pin_event (cleaned_up now) = ticked now ∷ []
pin_event _ = []

abbrev pub pin_events : List Request → List Event
pin_events [] = []
pin_events (r ∷ rs) = pin_event r ++ pin_events rs

module _ (to_lower hash : String → String) (is_location : String → Bool) where
  -- Neither the sign-out of a session with that hash nor the deletion of the account
  abbrev pub Keeps : String → String → Request → Type 0
  Keeps token_hash user_id (logged_out (some token)) =
      (not (str_eq token "") && str_eq token_hash (hash token)) ≡ false
  Keeps token_hash user_id (deleted id) = str_eq user_id id ≡ false
  Keeps token_hash user_id _ = Unit

  abbrev pub IsSignedIn : List Request → String → String → String → ℕ → Type 0
  IsSignedIn rs token_hash user_id email expires_at =
      (before after : List Request) × (at : ℕ) × (pin token : String) × (fresh : Option Fresh) × (rs
        ≡ before ++ verified at (some (email, pin)) fresh (some token) ∷ after)
      × (hash token ≡ token_hash)
      × (unix (at + session_duration) ≡ expires_at)
      × IsPending to_lower (to_lower email) (pin_events before) at pin
      × All (Keeps token_hash user_id) after

  -- The store of PINs
  pub pin_run-append :
      (es es' : List Event) (s : PinStore)
      → pin_run to_lower (es ++ es') s ≡ pin_run to_lower es' (pin_run to_lower es s)
  unfolding pin_run
  pin_run-append [] es' s = refl
  pin_run-append (e ∷ es) es' s = pin_run-append es es' (pin_step to_lower e s)

  pub pin_events-append :
      (rs : List Request) (r : Request) → pin_events (rs ++ r ∷ []) ≡ pin_events rs ++ pin_event r
  pin_events-append [] r = append-nil (pin_event r)
  pin_events-append (r' ∷ rs) r =
      ap (λ l. pin_event r' ++ l) (pin_events-append rs r)
      ∙ sym (append_assoc (pin_event r') (pin_events rs) (pin_event r))

  pub after_store_lem :
      (email : String) (sent : Bool) (x : Option User × List User) (s : Accounts)
      → (after_store email sent x s).1 ≡ record s { users = x.1 }
  after_store_lem email sent (none, users) s = refl
  after_store_lem email false (some u, users) s = refl
  after_store_lem email true (some u, users) s = refl

  open_session-pins :
      (now : ℕ) (token : Option String) (x : Option User × List User) (s : Accounts)
      → (open_session to_lower hash is_location now token x s).1.pins ≡ s.pins
  open_session-pins now token (none, users) s = refl
  open_session-pins now none (some u, users) s = refl
  open_session-pins now (some token) (some u, users) s = refl

  after_verify-pins :
      (now : ℕ) (email : String) (fresh : Option Fresh) (token : Option String)
      (error : Option VerifyError) (s : Accounts)
      → (after_verify to_lower hash is_location now email fresh token error s).1.pins ≡ s.pins
  after_verify-pins now email fresh token (some error) s = refl
  after_verify-pins now email fresh token none s =
      open_session-pins now token (find_or_create_user now email fresh s.users) s

  logout-pins : (cookie : Option String) (s : Accounts) → (logout hash cookie s).pins ≡ s.pins
  unfolding logout
  logout-pins none s = refl
  logout-pins (some token) s =
      if_either (λ (s' : Accounts). s'.pins ≡ s.pins) (str_eq token "") refl refl

  update_timezone-pins :
      (now : ℕ) (user : User) (body : Option String) (s : Accounts)
      → (update_timezone is_location now user body s).1.pins ≡ s.pins
  unfolding update_timezone
  update_timezone-pins now user none s = refl
  update_timezone-pins now user (some timezone) s =
      if_either (λ (x : Reply User × Accounts). x.1.pins ≡ s.pins)
        (str_eq timezone "" || not (is_location timezone)) refl refl

  pub step-pins :
      (r : Request) (s : Accounts)
      → (step to_lower hash is_location r s).pins ≡ pin_run to_lower (pin_event r) s.pins
  unfolding step request_pin verify_pin pin_run pin_step delete_account expire_sessions
  step-pins (requested now none pin fresh sent) s = refl
  step-pins (requested now (some email) none fresh sent) s = refl
  step-pins (requested now (some email) (some pin) fresh sent) s =
      ap (λ (s' : Accounts). s'.pins)
        (after_store_lem email sent (find_or_create_user now email fresh s.users)
          (record s { pins = store to_lower now email pin s.pins }))
  step-pins (verified now none fresh token) s = refl
  step-pins (verified now (some (email, pin)) fresh token) s =
      let (error, pins) = verify to_lower now email pin s.pins in
      after_verify-pins now email fresh token error (record s { pins = pins })
  step-pins (logged_out cookie) s = logout-pins cookie s
  step-pins (deleted user_id) s = refl
  step-pins (timezone_updated now user body) s = update_timezone-pins now user body s
  step-pins (cleaned_up now) s = refl
  step-pins (expired now) s = refl
