-- ===== src/Server/Pins.antt =====
-- `PinStore` of internal/auth/pin.go. `strings.ToLower` is a parameter; a time is a count of
-- nanoseconds. The mutex makes each operation one step, so that a history is a list of operations,
-- the ticks of `cleanup` among them.
pub mod Entries
pub mod Accepted
use starbies_schedule_sync.Base.{
  ℕ, ◌+◌, ◌-◌, ◌*◌, ltb, leb, String, Bool, not, Option, none, some, List, [], ◌∷◌, if◌then◌else◌,
  str_eq, put,
}

abbrev pub pin_expiry : ℕ
pin_expiry = 10 * 60 * 1000000000

abbrev pub max_attempts : ℕ
max_attempts = 5

pub record PinEntry : Type 0 where
  pub pin : String
  pub attempts : ℕ
  pub expires_at : ℕ

-- The map `entries`, without its mutex and its channel.
abbrev pub PinStore : Type 0
PinStore = String → Option PinEntry

abbrev pub new_pin_store : PinStore
new_pin_store = λ _. none

pub data VerifyError : Type 0 where
  no_pin_found pin_has_expired too_many_attempts : VerifyError
  incorrect_pin : (remaining : ℕ) → VerifyError

-- `Verify` once the entry is looked up: the error, if any, and what the entry becomes.
unfoldable pub check : ℕ → String → Option PinEntry → Option VerifyError × Option PinEntry
check now pin none = (some no_pin_found, none)
check now pin (some e) =
    if ltb e.expires_at now
    then (some pin_has_expired, none)
    else if leb max_attempts e.attempts
    then (some too_many_attempts, some e)
    else if not (str_eq pin e.pin)
    then (
      some (incorrect_pin (max_attempts - (e.attempts + 1))),
      some (record e { attempts = e.attempts + 1 }),
    )
    else (none, none)

-- What a tick of `cleanup` does to an entry.
unfoldable pub keep_fresh : ℕ → Option PinEntry → Option PinEntry
keep_fresh now none = none
keep_fresh now (some e) = if ltb e.expires_at now then none else some e

unfoldable pub clean_up : ℕ → PinStore → PinStore
unfolding keep_fresh
clean_up now s k = keep_fresh now (s k)

pub data Event : Type 0 where
  stored : (now : ℕ) → (email pin : String) → Event
  verified : (now : ℕ) → (email pin : String) → Event
  ticked : (now : ℕ) → Event

module _ (to_lower : String → String) where
  unfoldable pub store : ℕ → String → String → PinStore → PinStore
  store now email pin s =
      put (to_lower email)
        (some (record { pin = pin; attempts = 0; expires_at = now + pin_expiry })) s

  unfoldable pub verify : ℕ → String → String → PinStore → Option VerifyError × PinStore
  unfolding check
  verify now email pin s =
      let (error, e) = check now pin (s (to_lower email)) in (error, put (to_lower email) e s)

  unfoldable pub step : Event → PinStore → PinStore
  unfolding store verify clean_up
  step (stored now email pin) s = store now email pin s
  step (verified now email pin) s = (verify now email pin s).1
  step (ticked now) s = clean_up now s

  unfoldable pub run : List Event → PinStore → PinStore
  unfolding step
  run [] s = s
  run (e ∷ es) s = run es (step e s)
