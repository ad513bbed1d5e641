-- ===== src/Server/Accounts.antt =====
-- Users and sessions: internal/auth/session.go, and the handlers of cmd/app/server.go that sign a
-- user in and out, with `deleteAccount` of cmd/app/handlers_credentials.go, `updateTimezone` of
-- cmd/app/handlers_settings.go and the deletion of sessions by `runRetention`.
-- The statements of SQL are taken to succeed but for conflicts. `strings.ToLower`, SHA-256, the
-- validator of emails and `time.LoadLocation` are parameters; PINs, tokens and ids are arguments,
-- where none is an error of the random source, and so is whether the mail could be sent. Times are
-- nanoseconds since 1970, those of the tables seconds.
pub mod Users
pub mod SignIn
mod Tests
use starbies_schedule_sync.Base.{
  ℕ, ◌+◌, ◌*◌, ◌/◌, ltb, String, Bool, true, false, not, ◌&&◌, ◌||◌, Option, none, some, List, [],
  ◌∷◌, ◌++◌, is_some, if◌then◌else◌, str_eq,
}
use starbies_schedule_sync.Server.Tables.{select, update, delete}
use starbies_schedule_sync.Server.Pins.{PinStore}

abbrev pub nanoseconds : ℕ
nanoseconds = 1000000000

-- `time.Unix()`
abbrev pub unix : ℕ → ℕ
unix now = now / nanoseconds

abbrev pub session_duration : ℕ
session_duration = 90 * 24 * 3600 * nanoseconds

pub record User : Type 0 where
  pub id : String
  pub email : String
  pub is_admin : Bool
  pub timezone : String
  pub ics_token : String
  pub created_at : ℕ
  pub updated_at : ℕ

-- A row of `sessions`, without its random id.
pub record Session : Type 0 where
  pub user_id : String
  pub token_hash : String
  pub expires_at : ℕ
  pub created_at : ℕ

pub record Accounts : Type 0 where
  pub pins : PinStore
  pub users : List User
  pub sessions : List Session

-- The random values of a new user.
pub record Fresh : Type 0 where
  pub id : String
  pub ics_token : String

-- What the handlers and middlewares answer, `ok` with the document.
pub data Reply (A : Type 0) : Type 0 where
  ok : A → Reply A
  bad_request unauthorized forbidden too_many_requests internal_server_error : Reply A

abbrev pub has_email : String → User → Bool
has_email email u = str_eq u.email email

abbrev pub has_id : String → User → Bool
has_id id u = str_eq u.id id

abbrev new_user : ℕ → String → Fresh → User
new_user now email fresh = record {
  id = fresh.id;
  email = email;
  is_admin = false;
  timezone = "America/Chicago";
  ics_token = fresh.ics_token;
  created_at = unix now;
  updated_at = unix now;
}

-- The primary key, and the unique columns of `users`
abbrev pub conflicts : User → User → Bool
conflicts new u =
    str_eq u.id new.id || (str_eq u.email new.email || str_eq u.ics_token new.ics_token)

abbrev pub insert_user : User → List User → List User
insert_user new users = if is_some (select (conflicts new) users) then users else users ++ new ∷ []

-- After `getUserByEmail` has found the user or not: whether the INSERT fails or not, the last
-- statement is that lookup again.
abbrev pub or_create : ℕ → String → Option Fresh → Option User → List User → Option User × List User
or_create now email fresh (some u) users = (some u, users)
or_create now email none none users = (none, users)
or_create now email (some fresh) none users =
    let users' = insert_user (new_user now email fresh) users in
    (select (has_email email) users', users')

unfoldable pub find_or_create_user : ℕ → String → Option Fresh → List User → Option User × List User
unfolding select
find_or_create_user now email fresh users =
    or_create now email fresh (select (has_email email) users) users

-- The user of a session, by the JOIN: each session has one at most, by the primary key.
abbrev pub join : List User → Option Session → Option User
join users none = none
join users (some t) = select (has_id t.user_id) users

-- `authMiddleware`: what it stops with, or the user. `cookie` is none where there is none.
abbrev pub user_or_stop : Option User → Reply User
user_or_stop none = unauthorized
user_or_stop (some u) = ok u

module _ (hash : String → String) where
  abbrev pub has_hash : String → Session → Bool
  has_hash token t = str_eq t.token_hash (hash token)

  unfoldable pub create_session : ℕ → String → String → List Session → List Session
  create_session now user_id token sessions =
      sessions
      ++ record {
        user_id = user_id;
        token_hash = hash token;
        expires_at = unix (now + session_duration);
        created_at = unix now;
      }
        ∷ []

  unfoldable pub delete_session : String → List Session → List Session
  unfolding delete
  delete_session token sessions = delete (has_hash token) sessions

  -- `WHERE s.token_hash = ? AND s.expires_at > ?`
  abbrev pub is_live : ℕ → String → Session → Bool
  is_live now token t = has_hash token t && ltb (unix now) t.expires_at

  -- `sessions` refers to `users`, so that the session that is read has its user.
  unfoldable pub get_session_user : ℕ → String → Accounts → Option User
  unfolding select
  get_session_user now token s = join s.users (select (is_live now token) s.sessions)

  unfoldable pub auth_middleware : ℕ → Option String → Accounts → Reply User
  unfolding get_session_user
  auth_middleware now none s = unauthorized
  auth_middleware now (some token) s =
      if str_eq token "" then unauthorized else user_or_stop (get_session_user now token s)

  unfoldable pub logout : Option String → Accounts → Accounts
  unfolding delete_session
  logout none s = s
  logout (some token) s =
      if str_eq token "" then s else (record s { sessions = delete_session token s.sessions })

-- `adminMiddleware`
unfoldable pub admin_middleware : User → Reply User
admin_middleware u = if u.is_admin then ok u else forbidden

-- `DELETE FROM users WHERE id = ?`, which takes the sessions along.
unfoldable pub delete_account : String → Accounts → Accounts
unfolding delete
delete_account user_id s = record s {
  users = delete (has_id user_id) s.users;
  sessions = delete (λ (t : Session). str_eq t.user_id user_id) s.sessions;
}

abbrev pub set_timezone : ℕ → String → User → User
set_timezone now timezone u = record u { timezone = timezone; updated_at = unix now }

-- `updateTimezone` for a user; `body` is none where it does not bind.
unfoldable pub update_timezone :
    (String → Bool) → ℕ → User → Option String → Accounts → Reply User × Accounts
unfolding update
update_timezone is_location now user none s = (bad_request, s)
update_timezone is_location now user (some timezone) s =
    if str_eq timezone "" || not (is_location timezone) then (bad_request, s) else (
      ok (record user { timezone = timezone }),
      record s { users = update (has_id user.id) (set_timezone now timezone) s.users },
    )

-- The statement of `runRetention` on the sessions
unfoldable pub expire_sessions : ℕ → Accounts → Accounts
unfolding delete
expire_sessions now s = record s {
  sessions = delete (λ (t : Session). ltb t.expires_at (unix now)) s.sessions;
}
