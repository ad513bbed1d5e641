-- ===== src/Server/Accounts/SignIn/Steps.antt =====
-- Each request keeps what is known of users and sessions.
use starbies_schedule_sync.Base.{
  ℕ, ◌≡◌, refl, sym, ◌∙◌, String, Bool, true, false, not, ◌||◌, Bool-cases, inl, inr, Option, none,
  some, List, [], ◌∷◌, ◌++◌, if_either, if◌then◌else◌, str_eq, eq_iff, ltb,
}
use starbies_schedule_sync.Server.Tables.{
  update, delete, delete-All, delete-All-left, select-delete, select-update,
}
use starbies_schedule_sync.Server.Pins.{new_pin_store, store, verify, run as pin_run}
use starbies_schedule_sync.Server.Pins.Accepted.{verify-IsPending}
use starbies_schedule_sync.Server.Accounts.SignIn.History.{pin_events, after_store_lem}
use starbies_schedule_sync.Server.Accounts.{
  Accounts, Reply, Session, User, delete_account, delete_session, expire_sessions,
  find_or_create_user, has_hash, has_id, logout, set_timezone, unix, update_timezone,
}
use starbies_schedule_sync.Server.Accounts.Users.{delete-HasUniqueIds, update-HasUniqueIds}
use starbies_schedule_sync.Server.Accounts.SignIn.{
  Request, requested, verified, logged_out, deleted, timezone_updated, cleaned_up, expired,
  request_pin, verify_pin, step,
}
use starbies_schedule_sync.Server.Accounts.SignIn.Sessions.{
  Owned, Origin, Rest, later, untouched, found_or_created, after_verify-Rest, all_later,
}

module _ (to_lower hash : String → String) (is_location : String → Bool) where
  logout-Rest :
      (cookie : Option String) (past : List Request) (s : Accounts)
      → Rest to_lower hash is_location past s
      → Rest to_lower hash is_location (past ++ logged_out cookie ∷ []) (logout hash cookie s)
  unfolding logout delete_session
  logout-Rest none past s (ids, a) =
      untouched to_lower hash is_location past (logged_out none) s (λ t. tt) (ids, a)
  logout-Rest (some token) past s (ids, a) =
      let r = logged_out (some token) in
      elim (Bool-cases (str_eq token "")) [
        | inl e ↦ rw e (untouched to_lower hash is_location past r s (λ t. rw e refl) (ids, a))
        | inr e ↦ rw e (
          ids,
          delete-All-left (Origin to_lower hash is_location past s.users) (has_hash hash token)
              s.sessions
              (λ t left.
                later to_lower hash is_location past r s.users s.users t (rw (e, left) refl)
                  (λ m o. o))
              a,
        )
      ]

  deleted-Owned :
      (users : List User) (user_id id email : String)
      → str_eq user_id id ≡ false
      → Owned to_lower hash is_location users user_id email
      → Owned to_lower hash is_location (delete (has_id id) users) user_id email
  deleted-Owned users user_id id email left (u, h, p) =
      let stays : (v : User) → has_id user_id v ≡ true → has_id id v ≡ false =
        λ v e. rw ((eq_iff v.id user_id).0 e) left in
      (u, select-delete (has_id user_id) (has_id id) users stays ∙ h, p)

  delete_account-Rest :
      (id : String) (past : List Request) (s : Accounts)
      → Rest to_lower hash is_location past s
      → Rest to_lower hash is_location (past ++ deleted id ∷ []) (delete_account id s)
  unfolding delete_account
  delete_account-Rest id past s (ids, a) =
      let users = delete (has_id id) s.users in
      (
        delete-HasUniqueIds (has_id id) s.users ids,
        delete-All-left (Origin to_lower hash is_location past s.users)
            (λ (t : Session). str_eq t.user_id id) s.sessions
            (λ t left.
              later to_lower hash is_location past (deleted id) s.users users t left
                (λ m. deleted-Owned s.users t.user_id id m left))
            a,
      )

  updated-Owned :
      (now : ℕ) (timezone id : String) (users : List User) (user_id email : String)
      → Owned to_lower hash is_location users user_id email
      → Owned to_lower hash is_location
          (update (has_id id) (set_timezone now timezone) users)
          user_id
          email
  updated-Owned now timezone id users user_id email (u, h, p) =
      let u' = if has_id id u then set_timezone now timezone u else u in
      (
        u',
        select-update (has_id user_id) (has_id id) (set_timezone now timezone) users u (λ v. refl)
            h,
        if_either (λ (v : User). v.email ≡ email) (has_id id u) p p,
      )

  update_timezone-Rest :
      (now : ℕ) (user : User) (body : Option String) (past : List Request) (s : Accounts)
      → Rest to_lower hash is_location past s
      → Rest to_lower hash is_location
          (past ++ timezone_updated now user body ∷ [])
          (update_timezone is_location now user body s).1
  unfolding update_timezone
  update_timezone-Rest now user none past s (ids, a) =
      untouched to_lower hash is_location past (timezone_updated now user none) s (λ t. tt) (ids, a)
  update_timezone-Rest now user (some timezone) past s (ids, a) =
      let r = timezone_updated now user (some timezone) in
      if_either (λ (x : Reply User × Accounts). Rest to_lower hash is_location (past ++ r ∷ []) x.1)
        (str_eq timezone "" || not (is_location timezone))
        (untouched to_lower hash is_location past r s (λ t. tt) (ids, a))
        (
          update-HasUniqueIds (has_id user.id) (set_timezone now timezone) s.users (λ u. refl) ids,
          all_later to_lower hash is_location past r s.users _ s.sessions (λ t. tt)
              (λ t. updated-Owned now timezone user.id s.users t.user_id) a,
        )

  pub step-Rest :
      (r : Request) (past : List Request) (s : Accounts)
      → (s.pins ≡ pin_run to_lower (pin_events past) new_pin_store)
      → Rest to_lower hash is_location past s
      → Rest to_lower hash is_location (past ++ r ∷ []) (step to_lower hash is_location r s)
  unfolding step request_pin verify_pin expire_sessions
  step-Rest (requested now none pin fresh sent) past s p (ids, a) =
      untouched to_lower hash is_location past (requested now none pin fresh sent) s (λ t. tt)
        (ids, a)
  step-Rest (requested now (some email) none fresh sent) past s p (ids, a) =
      untouched to_lower hash is_location past (requested now (some email) none fresh sent) s
        (λ t. tt) (ids, a)
  step-Rest (requested now (some email) (some pin) fresh sent) past s p (ids, a) =
      let r = requested now (some email) (some pin) fresh sent in
      let s' = record s { pins = store to_lower now email pin s.pins } in
      rw
        (after_store_lem to_lower hash is_location email sent
          (find_or_create_user now email fresh s.users) s')
        (found_or_created to_lower hash is_location now email fresh past r s' (λ t. tt) (ids, a))
  step-Rest (verified now none fresh token) past s p (ids, a) =
      untouched to_lower hash is_location past (verified now none fresh token) s (λ t. tt) (ids, a)
  step-Rest (verified now (some (email, pin)) fresh token) past s p (ids, a) =
      let (error, pins) = verify to_lower now email pin s.pins in
      after_verify-Rest to_lower hash is_location now email pin fresh token error past
        (record s { pins = pins })
        (λ e. verify-IsPending to_lower (pin_events past) now email pin (rw (sym p) e)) (ids, a)
  step-Rest (logged_out cookie) past s p (ids, a) = logout-Rest cookie past s (ids, a)
  step-Rest (deleted user_id) past s p (ids, a) = delete_account-Rest user_id past s (ids, a)
  step-Rest (timezone_updated now user body) past s p (ids, a) =
      update_timezone-Rest now user body past s (ids, a)
  step-Rest (cleaned_up now) past s p (ids, a) =
      untouched to_lower hash is_location past (cleaned_up now) s (λ t. tt) (ids, a)
  step-Rest (expired now) past s p (ids, a) = (
    ids,
    delete-All (Origin to_lower hash is_location (past ++ expired now ∷ []) s.users)
        (λ (t : Session). ltb t.expires_at (unix now)) s.sessions
        (all_later to_lower hash is_location past (expired now) s.users s.users s.sessions (λ t. tt)
          (λ t e o. o) a),
  )
