-- ===== src/Server/Accounts/SignIn/Sessions.antt =====
-- What is known of each session and its user, and how finding or creating a user and opening a
-- session keep it.
use mathlib.Core.List.{append_assoc}
use starbies_schedule_sync.Base.{
  ℕ, ◌≡◌, refl, ap, ◌∙◌, String, Bool, Option, none, some, List, [], ◌∷◌, ◌++◌, All,
}
use starbies_schedule_sync.Server.Tables.{select, All-map, append-All}
use starbies_schedule_sync.Server.Pins.{VerifyError}
use starbies_schedule_sync.Server.Pins.Accepted.{IsPending}
use starbies_schedule_sync.Server.Accounts.SignIn.History.{pin_events, Keeps, IsSignedIn}
use starbies_schedule_sync.Server.Accounts.{
  Accounts, Fresh, Session, User, create_session, find_or_create_user, has_email, has_id,
}
use starbies_schedule_sync.Server.Accounts.Users.{
  HasUniqueIds, find_or_create_user-HasUniqueIds, find_or_create_user-found, select-email,
  select-find_or_create_user, select-has_id,
}
use starbies_schedule_sync.Server.Accounts.SignIn.{Request, verified, after_verify, open_session}

module _ (to_lower hash : String → String) (is_location : String → Bool) where
  abbrev pub Owned : List User → String → String → Type 0
  Owned users user_id email =
      (u : User) × (select (has_id user_id) users ≡ some u) × (u.email ≡ email)

  abbrev pub Origin : List Request → List User → Session → Type 0
  Origin past users t =
      (email : String) × IsSignedIn to_lower hash is_location past t.token_hash t.user_id email
        t.expires_at
      × Owned users t.user_id email

  pub later :
      (past : List Request) (r : Request) (users users' : List User) (t : Session)
      → Keeps to_lower hash is_location t.token_hash t.user_id r
      → ((email : String) → Owned users t.user_id email → Owned users' t.user_id email)
      → Origin past users t
      → Origin (past ++ r ∷ []) users' t
  later past r users users' t k f
        (email, (before, after, at, pin, token, fresh, e, h, x, p, a), o) =
      (
        email,
        (
          before,
          after ++ r ∷ [],
          at,
          pin,
          token,
          fresh,
          ap (λ l. l ++ r ∷ []) e
              ∙ append_assoc before (verified at (some (email, pin)) fresh (some token) ∷ after)
                  (r ∷ []),
          h,
          x,
          p,
          append-All (Keeps to_lower hash is_location t.token_hash t.user_id) after r a k,
        ),
        f email o,
      )

  -- Users and sessions
  abbrev pub Rest : List Request → Accounts → Type 0
  Rest past s = HasUniqueIds s.users × All (Origin past s.users) s.sessions

  pub all_later :
      (past : List Request) (r : Request) (users users' : List User) (ts : List Session)
      → ((t : Session) → Keeps to_lower hash is_location t.token_hash t.user_id r)
      → ((t : Session) (email : String)
          → Owned users t.user_id email
          → Owned users' t.user_id email)
      → All (Origin past users) ts
      → All (Origin (past ++ r ∷ []) users') ts
  all_later past r users users' ts k f =
      All-map (Origin past users) ts (λ t. later past r users users' t (k t) (f t))

  pub untouched :
      (past : List Request) (r : Request) (s : Accounts)
      → ((t : Session) → Keeps to_lower hash is_location t.token_hash t.user_id r)
      → Rest past s
      → Rest (past ++ r ∷ []) s
  untouched past r s k (ids, a) =
      (ids, all_later past r s.users s.users s.sessions k (λ t e o. o) a)

  pub found_or_created :
      (now : ℕ) (email : String) (fresh : Option Fresh) (past : List Request) (r : Request)
      (s : Accounts)
      → ((t : Session) → Keeps to_lower hash is_location t.token_hash t.user_id r)
      → Rest past s
      → Rest (past ++ r ∷ []) (record s { users = (find_or_create_user now email fresh s.users).1 })
  found_or_created now email fresh past r s k (ids, a) = (
    find_or_create_user-HasUniqueIds now email fresh s.users ids,
    all_later past r s.users (find_or_create_user now email fresh s.users).1 s.sessions k
        (λ t e (u, h, p).
          (u, select-find_or_create_user now email fresh s.users (has_id t.user_id) u h, p))
        a,
  )

  abbrev Passed : List Request → ℕ → String → String → Type 0
  Passed past now email pin = IsPending to_lower (to_lower email) (pin_events past) now pin

  open_session-Rest :
      (now : ℕ) (email pin : String) (fresh : Option Fresh) (token : Option String)
      (x : Option User × List User) (past : List Request) (s : Accounts)
      → Passed past now email pin
      → ((u : User) → x.0 ≡ some u → Owned x.1 u.id email)
      → Rest (past ++ verified now (some (email, pin)) fresh token ∷ []) (record s { users = x.1 })
      → Rest
          (past ++ verified now (some (email, pin)) fresh token ∷ [])
          (open_session to_lower hash is_location now token x s).1
  unfolding create_session
  open_session-Rest now email pin fresh token (none, users) past s p f q = q
  open_session-Rest now email pin fresh none (some u, users) past s p f q = q
  open_session-Rest now email pin fresh (some token) (some u, users) past s p f (ids, a) =
      let past' = past ++ verified now (some (email, pin)) fresh (some token) ∷ [] in
      (
        ids,
        append-All (Origin past' users) s.sessions _ a
            (email, (past, [], now, pin, token, fresh, refl, refl, refl, p, tt), f u refl),
      )

  pub after_verify-Rest :
      (now : ℕ) (email pin : String) (fresh : Option Fresh) (token : Option String)
      (error : Option VerifyError) (past : List Request) (s : Accounts)
      → (error ≡ none → Passed past now email pin)
      → Rest past s
      → Rest
          (past ++ verified now (some (email, pin)) fresh token ∷ [])
          (after_verify to_lower hash is_location now email fresh token error s).1
  after_verify-Rest now email pin fresh token (some error) past s p (ids, a) = (
    ids,
    all_later past (verified now (some (email, pin)) fresh token) s.users s.users s.sessions
        (λ t. tt) (λ t e o. o) a,
  )
  after_verify-Rest now email pin fresh token none past s p q =
      open_session-Rest now email pin fresh token (find_or_create_user now email fresh s.users) past
        s (p refl)
        (λ u e.
          let found = find_or_create_user-found now email fresh s.users u e in
          (
            u,
            select-has_id (has_email email) (find_or_create_user now email fresh s.users).1 u
                (find_or_create_user-HasUniqueIds now email fresh s.users (q.0)) found,
            select-email email (find_or_create_user now email fresh s.users).1 u found,
          ))
        (found_or_created now email fresh past (verified now (some (email, pin)) fresh token) s
          (λ t. tt) q)
