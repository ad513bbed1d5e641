-- ===== src/Server/Vault/RoundTrip.antt =====
-- What is read back of the credentials that were written.
use mathlib.Core.Option.{some-injective}
use mathlib.Core.Path.{subst}
use starbies_schedule_sync.Base.{
  ℕ, ◌≡◌, refl, sym, ap, ◌∙◌, String, Bool, true, false, Bool-cases, inl, inr, Option, none, some,
  if◌then◌else◌, str_eq, eq_iff,
}
use starbies_schedule_sync.Server.Limits.{allow}
use starbies_schedule_sync.Server.Accounts.{ok, unix}
use starbies_schedule_sync.Server.Vault.Keys.{AddsKey-other, get_or_create_dek-Grows}
use starbies_schedule_sync.Server.Vault.{
  Bytes, Crypto, CredentialsInput, Random, Sealed, UserDek, Vault, ◌>>=◌, create_dek,
  credential_window, decrypt_all, decrypt_or_create, encrypt_all, encrypt_and_store, first_created,
  get_or_create_dek, is_bound, is_key, load_credentials, open_sealed, scrape_window, seal,
  store_all, store_dek, write_bound, write_credentials, write_limited,
}

bind-some :
    {A B : Type 0} (o : Option A) (f : A → Option B) (b : B)
    → (o >>= f) ≡ some b
    → (a : A) × (o ≡ some a) × (f a ≡ some b)
bind-some none f b h = absurd cc
bind-some (some a) f b h = (a, refl, h)

module _ (crypto : Crypto) (input : CredentialsInput)
    (opens : (key nonce text : Bytes)
      → crypto.gcm_open key nonce (crypto.gcm_seal key nonce text) ≡ some text)
    (usernames : crypto.text_of (crypto.utf8 input.username) ≡ input.username)
    (passwords : crypto.text_of (crypto.utf8 input.password) ≡ input.password)
    (parses : crypto.unmarshal (crypto.marshal input.security_questions)
      ≡ some input.security_questions) where
  open_sealed-seal :
      (key text : Bytes) (n : Option Bytes) (c : Sealed)
      → seal crypto key n text ≡ some c
      → open_sealed crypto key c ≡ some text
  unfolding seal open_sealed
  open_sealed-seal key text none c h = absurd cc
  open_sealed-seal key text (some nonce) c h = elim (Bool-cases (is_key key)) [
    | inl e ↦
        let same : (crypto.gcm_seal key nonce text, nonce) ≡ c = some-injective _ _ (rw e at h) in
        subst (λ c'. open_sealed crypto key c' ≡ some text) same (rw e (opens key nonce text))
    | inr e ↦ absurd (cc (rw e at h))
  ]

  decrypt_all-encrypt_all :
      (dek : Bytes) (random : Random) (a b c : Sealed) (created updated : ℕ)
      → encrypt_all crypto dek input random ≡ some (a, b, c)
      → decrypt_all crypto dek (record {
        encrypted_username = a;
        encrypted_password = b;
        encrypted_security_questions = c;
        created_at = created;
        updated_at = updated;
      })
        ≡ some input
  decrypt_all-encrypt_all dek random a b c created updated h =
      let (a', p, h1) =
        bind-some (seal crypto dek random.username_nonce (crypto.utf8 input.username)) _ (a, b, c)
          h in
      let (b', q, h2) =
        bind-some (seal crypto dek random.password_nonce (crypto.utf8 input.password)) _ (a, b, c)
          h1 in
      let (c', r, h3) =
        bind-some (seal crypto dek random.questions_nonce (crypto.marshal input.security_questions))
          _ (a, b, c) h2 in
      let same : (a', b', c') ≡ (a, b, c) = some-injective (a', b', c') (a, b, c) h3 in
      let p' =
        open_sealed-seal dek (crypto.utf8 input.username) random.username_nonce a
          (p ∙ ap (λ (t : Sealed × Sealed × Sealed). some t.0) same) in
      let q' =
        open_sealed-seal dek (crypto.utf8 input.password) random.password_nonce b
          (q ∙ ap (λ (t : Sealed × Sealed × Sealed). some t.1) same) in
      let r' =
        open_sealed-seal dek (crypto.marshal input.security_questions) random.questions_nonce c
          (r ∙ ap (λ (t : Sealed × Sealed × Sealed). some t.2) same) in
      rw (p', q', r', parses, usernames, passwords) refl

  abbrev Holds : String → Bytes → Vault → Type 0
  Holds user_id dek s =
      (d : UserDek) × (s.user_deks user_id ≡ some d)
      × (open_sealed crypto crypto.mek d.encrypted_dek ≡ some dek)

  store_dek-Holds :
      (now : ℕ) (user_id : String) (dek k : Bytes) (c : Option Sealed) (s : Vault)
      → ((c' : Sealed) → c ≡ some c' → open_sealed crypto crypto.mek c' ≡ some dek)
      → (store_dek crypto now user_id dek c s).0 ≡ some k
      → Holds user_id k (store_dek crypto now user_id dek c s).1
  store_dek-Holds now user_id dek k none s f h = absurd cc
  store_dek-Holds now user_id dek k (some c) s f h =
      let mine = (eq_iff user_id user_id).1 refl in
      (record { encrypted_dek = c; created_at = now }, rw mine refl, f c refl ∙ h)

  create_dek-Holds :
      (now : ℕ) (user_id : String) (dek n : Option Bytes) (k : Bytes) (s : Vault)
      → (create_dek crypto now user_id dek n s).0 ≡ some k
      → Holds user_id k (create_dek crypto now user_id dek n s).1
  create_dek-Holds now user_id none n k s h = absurd cc
  create_dek-Holds now user_id (some dek) n k s h =
      store_dek-Holds now user_id dek k (seal crypto crypto.mek n dek) s
        (open_sealed-seal crypto.mek dek n) h

  decrypt_or_create-Holds :
      (now : ℕ) (user_id : String) (random : Random) (found : Option UserDek) (k : Bytes)
      (s : Vault)
      → found ≡ s.user_deks user_id
      → (decrypt_or_create crypto now user_id random found s).0 ≡ some k
      → Holds user_id k (decrypt_or_create crypto now user_id random found s).1
  decrypt_or_create-Holds now user_id random none k s e h =
      create_dek-Holds now user_id random.dek random.dek_nonce k s h
  decrypt_or_create-Holds now user_id random (some d) k s e h = (d, sym e, h)

  get_or_create_dek-Holds :
      (now : ℕ) (user_id : String) (random : Random) (k : Bytes) (s : Vault)
      → (get_or_create_dek crypto now user_id random s).0 ≡ some k
      → Holds user_id k (get_or_create_dek crypto now user_id random s).1
  unfolding get_or_create_dek
  get_or_create_dek-Holds now user_id random k s =
      decrypt_or_create-Holds now user_id random (s.user_deks user_id) k s refl

  abbrev entered : String → Vault → String → Option CredentialsInput
  entered user_id s other =
      if str_eq user_id other then some input else load_credentials crypto other s

  store_all-Load :
      (now : ℕ) (user_id : String) (random : Random) (dek : Bytes) (deks : String → Option UserDek)
      (parts : Option (Sealed × Sealed × Sealed)) (s : Vault)
      → parts ≡ encrypt_all crypto dek input random
      → Holds user_id dek (record s { user_deks = deks })
      → ((other : String) → str_eq user_id other ≡ false → deks other ≡ s.user_deks other)
      → (store_all crypto now user_id parts (record s { user_deks = deks })).0 ≡ ok tt
      → (other : String)
      → load_credentials crypto other
          (store_all crypto now user_id parts (record s { user_deks = deks })).1
        ≡ entered user_id s other
  unfolding load_credentials
  store_all-Load now user_id random dek deks none s e holds kept h other = absurd cc
  store_all-Load now user_id random dek deks (some (a, b, c)) s e (d, found, opened) kept h other =
      elim (Bool-cases (str_eq user_id other)) [
        | inl mine ↦
            let same : deks other ≡ some d =
              ap deks (sym ((eq_iff user_id other).0 mine)) ∙ found in
            rw (mine, same, opened)
              (decrypt_all-encrypt_all dek random a b c
                (first_created now (s.starbucks_credentials user_id)) now (sym e))
        | inr others ↦ rw (others, kept other others) refl
      ]

  encrypt_and_store-Load :
      (now : ℕ) (user_id : String) (random : Random) (k : Option Bytes)
      (deks : String → Option UserDek) (s : Vault)
      → ((dek : Bytes) → k ≡ some dek → Holds user_id dek (record s { user_deks = deks }))
      → ((other : String) → str_eq user_id other ≡ false → deks other ≡ s.user_deks other)
      → (encrypt_and_store crypto now user_id input random (k, record s { user_deks = deks })).0
        ≡ ok tt
      → (other : String)
      → load_credentials crypto other
          (encrypt_and_store crypto now user_id input random (k, record s { user_deks = deks })).1
        ≡ entered user_id s other
  encrypt_and_store-Load now user_id random none deks s holds kept h other = absurd cc
  encrypt_and_store-Load now user_id random (some dek) deks s holds kept h other =
      store_all-Load now user_id random dek deks (encrypt_all crypto dek input random) s refl
        (holds dek refl) kept h other

  abbrev Stores : ℕ → String → Random → Vault → Option Bytes → Vault → Type 0
  Stores now user_id random s k s1 =
      (encrypt_and_store crypto now user_id input random (k, s1)).0 ≡ ok tt
      → (other : String)
      → load_credentials crypto other (encrypt_and_store crypto now user_id input random (k, s1)).1
        ≡ entered user_id s other

  get_or_create_dek-Stores :
      (now : ℕ) (user_id : String) (random : Random) (s : Vault)
      → Stores now user_id random s
          (get_or_create_dek crypto now user_id random s).0
          (get_or_create_dek crypto now user_id random s).1
  get_or_create_dek-Stores now user_id random s =
      let k = (get_or_create_dek crypto now user_id random s).0 in
      let (deks, same, adds) = get_or_create_dek-Grows crypto now user_id random s in
      let holds = λ (dek : Bytes) (e : k ≡ some dek).
        subst (Holds user_id dek) same (get_or_create_dek-Holds now user_id random dek s e) in
      subst (Stores now user_id random s k) (sym same) (
        encrypt_and_store-Load now user_id random k deks s holds
          (AddsKey-other user_id s.user_deks deks adds))

  write_bound-Load :
      (now : ℕ) (user_id : String) (random : Random) (s : Vault)
      → (write_bound crypto now user_id (some input) random s).0 ≡ ok tt
      → (other : String)
      → load_credentials crypto other (write_bound crypto now user_id (some input) random s).1
        ≡ entered user_id s other
  unfolding write_bound
  write_bound-Load now user_id random s h other = elim (Bool-cases (is_bound input)) [
    | inl e ↦ rw e (get_or_create_dek-Stores now user_id random s (rw e at h) other)
    | inr e ↦ absurd (cc (rw e at h))
  ]

  write_limited-Load :
      (allowed allowed' : Bool) (now : ℕ) (user_id : String) (random : Random) (s1 s2 : Vault)
      → (write_limited crypto allowed allowed' now user_id (some input) random s1 s2).0 ≡ ok tt
      → (other : String)
      → load_credentials crypto other
          (write_limited crypto allowed allowed' now user_id (some input) random s1 s2).1
        ≡ entered user_id s2 other
  write_limited-Load false allowed' now user_id random s1 s2 h other = absurd cc
  write_limited-Load true false now user_id random s1 s2 h other = absurd cc
  write_limited-Load true true now user_id random s1 s2 h other =
      write_bound-Load (unix now) user_id random s2 h other

-- When the server has accepted credentials for a user, exactly these are what it decrypts for that
-- user, and for every other user it decrypts what it did before. AES-GCM opens what it has sealed,
-- and the bytes of the entered texts and the JSON of the questions can be read back.
pub load_credentials-write_credentials :
    (crypto : Crypto) (input : CredentialsInput)
    → ((key nonce text : Bytes)
        → crypto.gcm_open key nonce (crypto.gcm_seal key nonce text) ≡ some text)
    → crypto.text_of (crypto.utf8 input.username) ≡ input.username
    → crypto.text_of (crypto.utf8 input.password) ≡ input.password
    → crypto.unmarshal (crypto.marshal input.security_questions) ≡ some input.security_questions
    → (now : ℕ) (user_id : String) (random : Random) (s : Vault)
    → (write_credentials crypto now user_id (some input) random s).0 ≡ ok tt
    → (other : String)
    → load_credentials crypto other (write_credentials crypto now user_id (some input) random s).1
      ≡ (if str_eq user_id other then some input else load_credentials crypto other s)
unfolding write_credentials load_credentials
load_credentials-write_credentials crypto input opens usernames passwords parses now user_id random
      s h other =
    let (allowed, credential_rl) = allow credential_window 1 now user_id s.credential_rl in
    let s1 = record s { credential_rl = credential_rl } in
    let (allowed', scrape_rl) = allow scrape_window 10 now user_id s.scrape_rl in
    let s2 = record s1 { scrape_rl = scrape_rl } in
    write_limited-Load crypto input opens usernames passwords parses allowed allowed' now user_id
      random s1 s2 h other
