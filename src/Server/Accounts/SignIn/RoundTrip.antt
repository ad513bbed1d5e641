-- ===== src/Server/Accounts/SignIn/RoundTrip.antt =====
-- From the request of a PIN to a session.
use starbies_schedule_sync.Base.{
  ℕ, ◌+◌, ◌<◌, ◌≤◌, ◌≡◌, refl, ap, String, Bool, true, false, Option, none, some, List, [], ◌∷◌,
  arith, eq_iff, str_eq,
}
use starbies_schedule_sync.Server.Tables.{select, select-append_last}
use starbies_schedule_sync.Server.Pins.{PinStore, pin_expiry, check, store, verify}
use starbies_schedule_sync.Server.Accounts.{
  Accounts, Fresh, Session, User, auth_middleware, create_session, find_or_create_user,
  get_session_user, has_email, has_hash, has_id, is_live, ok, session_duration, unix, user_or_stop,
}
use starbies_schedule_sync.Server.Accounts.Users.{
  HasUniqueIds, find_or_create_user-HasUniqueIds, find_or_create_user-found, select-email,
  select-has_id,
}
use starbies_schedule_sync.Server.Accounts.SignIn.{request_pin, verify_pin, after_store}

after_store-ok :
    (email reply : String) (sent : Bool) (x : Option User × List User) (s : Accounts)
    → (after_store email sent x s).0 ≡ ok reply
    → (u : User) × (x.0 ≡ some u) × ((after_store email sent x s).1 ≡ record s { users = x.1 })
after_store-ok email reply sent (none, users) s h = absurd cc
after_store-ok email reply false (some u, users) s h = absurd cc
after_store-ok email reply true (some u, users) s h = (u, refl, refl)

find_or_create_user_again :
    (now : ℕ) (email : String) (fresh : Option Fresh) (users : List User) (u : User)
    → select (has_email email) users ≡ some u
    → find_or_create_user now email fresh users ≡ (some u, users)
unfolding find_or_create_user
find_or_create_user_again now email fresh users u h = rw h refl

select-is_live :
    (hash : String → String) (now : ℕ) (token : String) (ts : List Session)
    → select (has_hash hash token) ts ≡ none
    → select (is_live hash now token) ts ≡ none
unfolding select
select-is_live hash now token [] h = refl
select-is_live hash now token (t ∷ ts) h = ground (arith, select-is_live hash now token ts)

verify-store :
    (to_lower : String → String) (at now : ℕ) (email pin : String) (pins : PinStore)
    → now ≤ at + pin_expiry
    → (verify to_lower now email pin (store to_lower at email pin pins)).0 ≡ none
unfolding verify store check
verify-store to_lower at now email pin pins h =
    let key = (eq_iff (to_lower email) (to_lower email)).1 refl in
    let right = (eq_iff pin pin).1 refl in rw (key, right) (ground arith)

get_session_user-create_session :
    (hash : String → String) (now after : ℕ) (token : String) (u : User) (s : Accounts)
    → select (has_hash hash token) s.sessions ≡ none
    → unix after < unix (now + session_duration)
    → select (has_id u.id) s.users ≡ some u
    → get_session_user hash after token
        (record s { sessions = create_session hash now u.id token s.sessions })
      ≡ some u
unfolding get_session_user create_session
get_session_user-create_session hash now after token u s new live by_id =
    let t : Session = record {
      user_id = u.id;
      token_hash = hash token;
      expires_at = unix (now + session_duration);
      created_at = unix now;
    } in
    let same = (eq_iff (hash token) (hash token)).1 refl in
    let lives : is_live hash after token t ≡ true = rw same (ground arith) in
    let found =
      select-append_last (is_live hash after token) s.sessions t
        (select-is_live hash after token s.sessions new) lives in
    rw found by_id

-- When a PIN was requested with success and is entered for the same email within ten minutes, the
-- server answers with the user of that email and a token, if the random source gives one, and until
-- 90 days have gone by, in whole seconds, the token, which is not empty and new, leads to that user.
pub auth_middleware-verify_pin :
    (to_lower hash : String → String) (is_location : String → Bool) (at now after : ℕ)
    (email pin token : String) (fresh fresh' : Option Fresh) (sent : Bool) (s : Accounts)
    → HasUniqueIds s.users
    → (request_pin to_lower hash is_location at (some email) (some pin) fresh sent s).0 ≡ ok email
    → now ≤ at + pin_expiry
    → str_eq token "" ≡ false
    → select (has_hash hash token) s.sessions ≡ none
    → unix after < unix (now + session_duration)
    → let s1 = (request_pin to_lower hash is_location at (some email) (some pin) fresh sent s).1 in
      let (reply, s2) =
        verify_pin to_lower hash is_location now (some (email, pin)) fresh' (some token) s1 in
      (u : User) × (reply ≡ ok (u, token))
      × (u.email ≡ email)
      × (auth_middleware hash after (some token) s2 ≡ ok u)
unfolding request_pin verify_pin auth_middleware
auth_middleware-verify_pin to_lower hash is_location at now after email pin token fresh fresh' sent
      s ids h soon nonempty new live =
    let s0 = record s { pins = store to_lower at email pin s.pins } in
    let (u, made, same) =
      after_store-ok email email sent (find_or_create_user at email fresh s.users) s0 h in
    let users = (find_or_create_user at email fresh s.users).1 in
    let found = find_or_create_user-found at email fresh s.users u made in
    let again = find_or_create_user_again now email fresh' users u found in
    let passes = verify-store to_lower at now email pin s.pins soon in
    let by_id =
      select-has_id (has_email email) users u
        (find_or_create_user-HasUniqueIds at email fresh s.users ids) found in
    let s1 = record s { pins = (verify to_lower now email pin s0.pins).1; users = users } in
    (
      u,
      rw (same, passes, again) refl,
      select-email email users u found,
      rw (nonempty, same, passes, again)
          (ap user_or_stop
            (get_session_user-create_session hash now after token u s1 new live by_id)),
    )
