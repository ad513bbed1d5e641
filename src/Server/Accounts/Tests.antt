-- ===== src/Server/Accounts/Tests.antt =====
-- A user who asks for a PIN, enters it and comes back with the session.
use starbies_schedule_sync.Base.{
  ℕ, ◌*◌, ◌≡◌, refl, String, Bool, true, false, none, some, List, [], ◌∷◌, if◌then◌else◌, str_eq,
  arith,
}
use starbies_schedule_sync.Server.Tables.{select}
use starbies_schedule_sync.Server.Accounts.{
  User, Fresh, auth_middleware, get_session_user, has_hash, nanoseconds, ok, unauthorized,
}
use starbies_schedule_sync.Server.Accounts.SignIn.{
  Request, cleaned_up, deleted, logged_out, opened, request_pin, requested, run, verified,
  verify_pin,
}
use starbies_schedule_sync.Server.Accounts.SignIn.RoundTrip.{auth_middleware-verify_pin}

-- `ToLower` and the hash on the texts of the tests.
abbrev to_lower : String → String
to_lower text = if str_eq text "Ada@x.org" then "ada@x.org" else text

abbrev hash : String → String
hash token = if str_eq token "t1" then "h1" else "h2"

abbrev is_location : String → Bool
is_location name = str_eq name "America/Chicago"

abbrev fresh : Fresh
fresh = record { id = "u1"; ics_token = "c1" }

abbrev fresh' : Fresh
fresh' = record { id = "u2"; ics_token = "c2" }

abbrev second : ℕ
second = nanoseconds

abbrev ada : User
ada = record {
  id = "u1";
  email = "ada@x.org";
  is_admin = false;
  timezone = "America/Chicago";
  ics_token = "c1";
  created_at = 0;
  updated_at = 0;
}

abbrev history : List Request
history =
    requested 0 (some "ada@x.org") (some "111111") (some fresh) true
    ∷ verified (20 * second) (some ("ada@x.org", "999999")) none (some "t0")
    ∷ verified (30 * second) (some ("ada@x.org", "111111")) none (some "t1")
    ∷ cleaned_up (60 * second)
    ∷ logged_out (some "t2")
    ∷ deleted "u7"
    ∷ []

finds_ada :
    get_session_user hash (70 * second) "t1" (run to_lower hash is_location history opened)
    ≡ some ada
unfolding get_session_user run
finds_ada = refl

-- A PIN that is entered with another case of the email signs in to another account.
abbrev other_case : List Request
other_case =
    requested 0 (some "ada@x.org") (some "111111") (some fresh) true
    ∷ verified (30 * second) (some ("Ada@x.org", "111111")) (some fresh') (some "t1")
    ∷ []

other_account :
    get_session_user hash (70 * second) "t1" (run to_lower hash is_location other_case opened)
    ≡ some (record ada {
      id = "u2";
      email = "Ada@x.org";
      ics_token = "c2";
      created_at = 30;
      updated_at = 30;
    })
unfolding get_session_user run
other_account = refl

after_deletion :
    auth_middleware hash (70 * second) (some "t1") (
      run to_lower hash is_location
        (requested 0 (some "ada@x.org") (some "111111") (some fresh) true
          ∷ verified (30 * second) (some ("ada@x.org", "111111")) none (some "t1")
          ∷ deleted "u1"
          ∷ [])
        opened)
    ≡ unauthorized
unfolding auth_middleware run
after_deletion = refl

asked_for :
    (request_pin to_lower hash is_location 0
      (some "ada@x.org")
      (some "111111")
      (some fresh)
      true
      opened).0
    ≡ ok "ada@x.org"
unfolding request_pin
asked_for = refl

no_sessions : select (has_hash hash "t1") opened.sessions ≡ none
unfolding select
no_sessions = refl

auth_middleware-verify_pin_example :
    let s1 =
      (request_pin to_lower hash is_location 0
        (some "ada@x.org")
        (some "111111")
        (some fresh)
        true
        opened).1 in
    let (reply, s2) =
      verify_pin to_lower hash is_location
        (30 * second)
        (some ("ada@x.org", "111111"))
        none
        (some "t1")
        s1 in
    (u : User) × (reply ≡ ok (u, "t1"))
    × (u.email ≡ "ada@x.org")
    × (auth_middleware hash (40 * second) (some "t1") s2 ≡ ok u)
auth_middleware-verify_pin_example =
    auth_middleware-verify_pin to_lower hash is_location 0 (30 * second) (40 * second) "ada@x.org"
      "111111" "t1" (some fresh) none true opened tt asked_for (omega arith) refl no_sessions
      (omega arith)
