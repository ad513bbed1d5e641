-- ===== src/Server/Vault/Refusals.antt =====
-- What is kept when credentials are refused.
use starbies_schedule_sync.Base.{
  ℕ, ◌≡◌, ◌≢◌, ◌⊎◌, refl, sym, String, Bool, true, false, Bool-cases, inl, inr, Option, none, some,
  if◌then◌else◌,
}
use mathlib.Core.Path.{subst}
use starbies_schedule_sync.Server.Limits.{Requests, allow}
use starbies_schedule_sync.Server.Accounts.{
  Reply, internal_server_error, ok, too_many_requests, unix,
}
use starbies_schedule_sync.Server.Vault.{
  Bytes, CredentialsInput, Crypto, Random, Sealed, UserDek, Vault, credential_window, encrypt_all,
  encrypt_and_store, get_or_create_dek, is_bound, scrape_window, store_all, write_bound,
  write_credentials, write_limited,
}
use starbies_schedule_sync.Server.Vault.Keys.{AddsKey, get_or_create_dek-Grows}

-- Nothing changed, or the server failed, and only the keys changed, by one for a user who had none.
abbrev Leaves : String → Vault → Reply Unit → Vault → Type 0
Leaves user_id s reply s' =
    (s' ≡ s)
    ⊎ ((reply ≡ internal_server_error)
        × ((deks : String → Option UserDek) × (s' ≡ record s { user_deks = deks })
            × AddsKey user_id s.user_deks deks))

-- Each table, the scrapes that were triggered, and each limiter, before and after; `first` and `second`
-- are what the limiters answer, of which the second is only asked where the first lets pass.
pub record KeepsBut (first second : Bool × Requests) (user_id : String) (s : Vault)
    (reply : Reply Unit) (s' : Vault) : Type 0 where
  pub credentials : s'.starbucks_credentials ≡ s.starbucks_credentials
  pub schedule : s'.scrape_schedule ≡ s.scrape_schedule
  pub triggered : s'.triggered ≡ s.triggered
  pub keys :
      (s'.user_deks ≡ s.user_deks)
      ⊎ ((reply ≡ internal_server_error) × AddsKey user_id s.user_deks s'.user_deks)
  pub credential_rl : s'.credential_rl ≡ first.1
  pub scrape_rl : s'.scrape_rl ≡ (if first.0 then second.1 else s.scrape_rl)

abbrev pub Keeps : ℕ → String → Vault → Reply Unit × Vault → Type 0
Keeps now user_id s (reply, s') =
    KeepsBut (allow credential_window 1 now user_id s.credential_rl)
      (allow scrape_window 10 now user_id s.scrape_rl) user_id s reply s'

module _ (crypto : Crypto) (user_id : String) where
  store_all-internal_server_error :
      (now : ℕ) (parts : Option (Sealed × Sealed × Sealed)) (s : Vault)
      → (store_all crypto now user_id parts s).0 ≢ ok tt
      → store_all crypto now user_id parts s ≡ (internal_server_error, s)
  store_all-internal_server_error now none s h = refl
  store_all-internal_server_error now (some (a, b, c)) s h = absurd (h refl)

  encrypt_and_store-internal_server_error :
      (now : ℕ) (input : CredentialsInput) (random : Random) (k : Option Bytes) (s : Vault)
      → (encrypt_and_store crypto now user_id input random (k, s)).0 ≢ ok tt
      → encrypt_and_store crypto now user_id input random (k, s) ≡ (internal_server_error, s)
  encrypt_and_store-internal_server_error now input random none s h = refl
  encrypt_and_store-internal_server_error now input random (some dek) s h =
      store_all-internal_server_error now (encrypt_all crypto dek input random) s h

  abbrev LeavesBy : Vault → Reply Unit × Vault → Type 0
  LeavesBy s (reply, s') = Leaves user_id s reply s'

  encrypt_and_store-Leaves :
      (now : ℕ) (input : CredentialsInput) (random : Random) (s : Vault)
      → let made = get_or_create_dek crypto now user_id random s in
        (encrypt_and_store crypto now user_id input random made).0 ≢ ok tt
        → LeavesBy s (encrypt_and_store crypto now user_id input random made)
  encrypt_and_store-Leaves now input random s h =
      let (k, s1) = get_or_create_dek crypto now user_id random s in
      let failed = encrypt_and_store-internal_server_error now input random k s1 h in
      subst (LeavesBy s) (sym failed)
        (inr (refl, get_or_create_dek-Grows crypto now user_id random s))

  write_bound-Leaves :
      (now : ℕ) (body : Option CredentialsInput) (random : Random) (s : Vault)
      → (write_bound crypto now user_id body random s).0 ≢ ok tt
      → LeavesBy s (write_bound crypto now user_id body random s)
  unfolding write_bound
  write_bound-Leaves now none random s h = inl refl
  write_bound-Leaves now (some input) random s h = elim (Bool-cases (is_bound input)) [
    | inl e ↦ rw e (encrypt_and_store-Leaves now input random s (rw e at h))
    | inr e ↦ rw e (inl refl)
  ]

  abbrev KeepsBy : Bool × Requests → Bool × Requests → Vault → Reply Unit × Vault → Type 0
  KeepsBy first second s (reply, s') = KeepsBut first second user_id s reply s'

  with_keys :
      (first second : Bool × Requests) (s : Vault) (deks : String → Option UserDek)
      (reply : Reply Unit)
      → (deks ≡ s.user_deks) ⊎ ((reply ≡ internal_server_error) × AddsKey user_id s.user_deks deks)
      → KeepsBut first second user_id s reply (record s {
        user_deks = deks;
        credential_rl = first.1;
        scrape_rl = if first.0 then second.1 else s.scrape_rl;
      })
  with_keys first second s deks reply keys = record {
    credentials = refl;
    schedule = refl;
    triggered = refl;
    keys = keys;
    credential_rl = refl;
    scrape_rl = refl;
  }

  Leaves-KeepsBut :
      (c r : Requests) (s : Vault) (result : Reply Unit × Vault)
      → LeavesBy (record s { credential_rl = c; scrape_rl = r }) result
      → KeepsBy (true, c) (true, r) s result
  Leaves-KeepsBut c r s (reply, s') (inl same) =
      rw same (with_keys (true, c) (true, r) s s.user_deks reply (inl refl))
  Leaves-KeepsBut c r s (reply, s') (inr (failed, (deks, same, adds))) =
      rw same (with_keys (true, c) (true, r) s deks reply (inr (failed, adds)))

  write_limited-KeepsBut :
      (allowed allowed' : Bool) (c r : Requests) (now : ℕ) (body : Option CredentialsInput)
      (random : Random) (s : Vault)
      → let s1 = record s { credential_rl = c } in
        let s2 = record s1 { scrape_rl = r } in
        (write_limited crypto allowed allowed' now user_id body random s1 s2).0 ≢ ok tt
        → KeepsBy
            (allowed, c)
            (allowed', r)
            s
            (write_limited crypto allowed allowed' now user_id body random s1 s2)
  write_limited-KeepsBut false allowed' c r now body random s h =
      with_keys (false, c) (allowed', r) s s.user_deks too_many_requests (inl refl)
  write_limited-KeepsBut true false c r now body random s h =
      with_keys (true, c) (false, r) s s.user_deks too_many_requests (inl refl)
  write_limited-KeepsBut true true c r now body random s h =
      let s2 = record s { credential_rl = c; scrape_rl = r } in
      Leaves-KeepsBut c r s (write_bound crypto (unix now) user_id body random s2)
        (write_bound-Leaves (unix now) body random s2 h)

-- Credentials that are refused, for whatever reason, leave the stored credentials, the plan of the
-- scrapes and the scrapes that were triggered as they were, of every user. The keys are left too, but
-- for one case: when the server fails (500), the user may have a key who had none; a key that is there
-- is never replaced. The limiters are left as their own answers leave them, the second of them
-- untouched where the first refused.
pub write_credentials-Keeps :
    (crypto : Crypto) (now : ℕ) (user_id : String) (body : Option CredentialsInput)
    (random : Random) (s : Vault)
    → (write_credentials crypto now user_id body random s).0 ≢ ok tt
    → Keeps now user_id s (write_credentials crypto now user_id body random s)
unfolding write_credentials
write_credentials-Keeps crypto now user_id body random s h =
    let (allowed, credential_rl) = allow credential_window 1 now user_id s.credential_rl in
    let (allowed', scrape_rl) = allow scrape_window 10 now user_id s.scrape_rl in
    write_limited-KeepsBut crypto user_id allowed allowed' credential_rl scrape_rl now body random s
      h
