-- ===== src/Server/Accounts/SignIn/Origin.antt =====
-- Where the sessions come from, after any history of requests.
use mathlib.Core.Path.{subst}
use mathlib.Core.Option.{some-injective}
use mathlib.Core.List.{append-nil, append_assoc}
use starbies_schedule_sync.Base.{
  ℕ, ◌<◌, ◌≡◌, refl, sym, ap, ◌∙◌, String, Bool, Option, none, some, List, [], ◌∷◌, ◌++◌, arith,
  eq_iff,
}
use starbies_schedule_sync.Server.Tables.{select, select-passes, select-All}
use starbies_schedule_sync.Server.Pins.{new_pin_store, run as pin_run}
use starbies_schedule_sync.Server.Accounts.SignIn.History.{
  pin_event, pin_events, IsSignedIn, step-pins, pin_run-append, pin_events-append,
}
use starbies_schedule_sync.Server.Accounts.SignIn.Sessions.{Origin, Rest}
use starbies_schedule_sync.Server.Accounts.SignIn.Steps.{step-Rest}
use starbies_schedule_sync.Server.Accounts.{
  Accounts, Session, User, get_session_user, has_id, is_live, join, unix,
}
use starbies_schedule_sync.Server.Accounts.SignIn.{Request, opened, step, run}

module _ (to_lower hash : String → String) (is_location : String → Bool) where
  abbrev Inv : List Request → Accounts → Type 0
  Inv past s =
      (s.pins ≡ pin_run to_lower (pin_events past) new_pin_store)
      × Rest to_lower hash is_location past s

  step-Inv :
      (r : Request) (past : List Request) (s : Accounts)
      → Inv past s
      → Inv (past ++ r ∷ []) (step to_lower hash is_location r s)
  step-Inv r past s inv = (
    step-pins to_lower hash is_location r s
        ∙ ap (pin_run to_lower (pin_event r)) (inv.0)
        ∙ sym (
            ap (λ es. pin_run to_lower es new_pin_store)
              (pin_events-append to_lower hash is_location past r)
            ∙ pin_run-append to_lower hash is_location (pin_events past) (pin_event r)
                new_pin_store),
    step-Rest to_lower hash is_location r past s (inv.0) (inv.1),
  )

  run-Inv :
      (rs past : List Request) (s : Accounts)
      → Inv past s
      → Inv (past ++ rs) (run to_lower hash is_location rs s)
  unfolding run
  run-Inv [] past s inv = subst (λ l. Inv l s) (sym (append-nil past)) inv
  run-Inv (r ∷ rs) past s inv =
      subst (λ l. Inv l (run to_lower hash is_location (r ∷ rs) s)) (append_assoc past (r ∷ []) rs)
        (run-Inv rs (past ++ r ∷ []) (step to_lower hash is_location r s) (step-Inv r past s inv))

  opened-Inv : Inv [] opened
  unfolding pin_run
  opened-Inv = (refl, (tt, tt))

join-inv :
    (users : List User) (t : Option Session) (u : User)
    → join users t ≡ some u
    → (t' : Session) × (t ≡ some t') × (select (has_id t'.user_id) users ≡ some u)
join-inv users none u h = absurd cc
join-inv users (some t) u h = (t, refl, h)

-- After any history of the server, a session token leads to a user only if it, or one with its hash,
-- was given out when a PIN was verified for the email of that user. That PIN had been stored for the
-- email, in some spelling of its case, at most ten minutes before, with no other PIN stored and
-- fewer than five wrong ones checked in between. The session ends 90 days after, in whole seconds,
-- and that is still ahead; nobody has signed out with it since, nor was the account deleted.
pub get_session_user-IsSignedIn :
    (to_lower hash : String → String) (is_location : String → Bool) (rs : List Request) (now : ℕ)
    (token : String) (u : User)
    → get_session_user hash now token (run to_lower hash is_location rs opened) ≡ some u
    → (expires_at : ℕ) × IsSignedIn to_lower hash is_location rs
        (hash token)
        u.id
        u.email
        expires_at
      × (unix now < expires_at)
unfolding get_session_user
get_session_user-IsSignedIn to_lower hash is_location rs now token u h =
    let s = run to_lower hash is_location rs opened in
    let inv =
      run-Inv to_lower hash is_location rs [] opened (opened-Inv to_lower hash is_location) in
    let (t, found, owner) = join-inv s.users (select (is_live hash now token) s.sessions) u h in
    let ((email, signed, (u', owner', same)), live) =
      select-All (Origin to_lower hash is_location rs s.users) (is_live hash now token) s.sessions t
        (inv.1.1) found in
    let user : u' ≡ u = some-injective u' u (sym owner' ∙ owner) in
    let id : t.user_id ≡ u.id =
      sym ((eq_iff u.id t.user_id).0 (select-passes (has_id t.user_id) s.users u owner)) in
    let key : t.token_hash ≡ hash token = (eq_iff t.token_hash (hash token)).0 (ground arith) in
    let mail : email ≡ u.email = sym same ∙ ap (λ (v : User). v.email) user in
    (t.expires_at, rw (key, id, mail) at signed, ground arith)
