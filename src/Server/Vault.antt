-- ===== src/Server/Vault.antt =====
-- The credentials of the users: internal/crypto/envelope.go, `getOrCreateDEK` of
-- cmd/app/crypto_helpers.go, `writeCredentials` of cmd/app/handlers_credentials.go and
-- `LoadCredentials` of internal/scraper/service.go. AES-GCM, JSON and the bytes of a text are
-- the parameter `Crypto`; what the random source gives stands in an argument, with none for an error. The
-- statements of SQL are taken to succeed.
pub mod Keys
pub mod RoundTrip
pub mod Refusals
pub mod Delivery
mod Tests
use starbies_schedule_sync.Base.{
  ℕ, ◌*◌, String, Bool, true, false, not, ◌&&◌, ◌||◌, ◌==◌, length, Option, none, some, List, [],
  ◌∷◌, ◌++◌, map, if◌then◌else◌, str_eq, put,
}
use starbies_schedule_sync.Scraper.Script.{Credentials}
use starbies_schedule_sync.Scraper.Script
use starbies_schedule_sync.Server.Limits.{Requests, allow}
use starbies_schedule_sync.Server.Scrapes.{Planned}
use starbies_schedule_sync.Server.Accounts.{
  Reply, bad_request, internal_server_error, nanoseconds, ok, too_many_requests, unix,
}

pub record SecurityQuestion : Type 0 where
  pub question : String
  pub answer : String

-- `CredentialsInput` and `DecryptedCredentials`
pub record CredentialsInput : Type 0 where
  pub username : String
  pub password : String
  pub security_questions : List SecurityQuestion

abbrev has_any : List SecurityQuestion → Bool
has_any [] = false
has_any (q ∷ qs) = true

-- `binding:"required"`, and `min=1` of the questions
abbrev pub is_bound : CredentialsInput → Bool
is_bound input =
    not (str_eq input.username "")
    && (not (str_eq input.password "") && has_any input.security_questions)

abbrev pub Bytes : Type 0
Bytes = List ℕ

-- A ciphertext and its nonce
abbrev pub Sealed : Type 0
Sealed = Bytes × Bytes

pub record UserDek : Type 0 where
  pub encrypted_dek : Sealed
  pub created_at : ℕ

pub record StarbucksCredentials : Type 0 where
  pub encrypted_username : Sealed
  pub encrypted_password : Sealed
  pub encrypted_security_questions : Sealed
  pub created_at : ℕ
  pub updated_at : ℕ

-- The tables by the user's id, the limiters of the handler, and the scrapes that were triggered.
pub record Vault : Type 0 where
  pub user_deks : String → Option UserDek
  pub starbucks_credentials : String → Option StarbucksCredentials
  pub scrape_schedule : String → Option Planned
  pub credential_rl : Requests
  pub scrape_rl : Requests
  pub triggered : List String

-- What the random source gives for a key and the nonces, in the order in which they are asked for.
pub record Random : Type 0 where
  pub dek : Option Bytes
  pub dek_nonce : Option Bytes
  pub username_nonce : Option Bytes
  pub password_nonce : Option Bytes
  pub questions_nonce : Option Bytes

-- The lengths that `aes.NewCipher` takes
abbrev pub is_key : Bytes → Bool
is_key key = length key == 16 || (length key == 24 || length key == 32)

infixl 1 ◌>>=◌
abbrev pub ◌>>=◌ {ℓ κ} : {A : Type ℓ} {B : Type κ} → Option A → (A → Option B) → Option B
none >>= f = none
(some a) >>= f = f a

-- AES-GCM on a key, a nonce and a text, the bytes of a text, the JSON of the questions, and the master
-- key of the server
pub record Crypto : Type 0 where
  pub gcm_seal : Bytes → Bytes → Bytes → Bytes
  pub gcm_open : Bytes → Bytes → Bytes → Option Bytes
  pub utf8 : String → Bytes
  pub text_of : Bytes → String
  pub marshal : List SecurityQuestion → Bytes
  pub unmarshal : Bytes → Option (List SecurityQuestion)
  pub mek : Bytes

-- `ON CONFLICT (user_id) DO UPDATE` keeps the time of the creation.
abbrev pub first_created : ℕ → Option StarbucksCredentials → ℕ
first_created now none = now
first_created now (some cred) = cred.created_at

abbrev pub next_planned : ℕ → Option Planned → Planned
next_planned now none = record { next_scrape_at = now; last_scraped_at = none }
next_planned now (some p) = record p { next_scrape_at = now }

abbrev pub credential_window : ℕ
credential_window = 30 * nanoseconds

abbrev pub scrape_window : ℕ
scrape_window = 48 * 3600 * nanoseconds

module _ (crypto : Crypto) where
  unfoldable pub seal : Bytes → Option Bytes → Bytes → Option Sealed
  seal key none plaintext = none
  seal key (some nonce) plaintext =
      if is_key key then some (crypto.gcm_seal key nonce plaintext, nonce) else none

  unfoldable pub open_sealed : Bytes → Sealed → Option Bytes
  open_sealed key (ciphertext, nonce) =
      if is_key key then crypto.gcm_open key nonce ciphertext else none

  -- `getOrCreateDEK` where no row was found, with `GenerateDEK`
  abbrev pub store_dek : ℕ → String → Bytes → Option Sealed → Vault → Option Bytes × Vault
  store_dek now user_id dek none s = (none, s)
  store_dek now user_id dek (some encrypted) s = (
    some dek,
    record s {
      user_deks =
          put user_id (some (record { encrypted_dek = encrypted; created_at = now })) s.user_deks;
    },
  )

  abbrev pub create_dek : ℕ → String → Option Bytes → Option Bytes → Vault → Option Bytes × Vault
  create_dek now user_id none dek_nonce s = (none, s)
  create_dek now user_id (some dek) dek_nonce s =
      store_dek now user_id dek (seal crypto.mek dek_nonce dek) s

  abbrev pub decrypt_or_create : ℕ → String → Random → Option UserDek → Vault → Option Bytes × Vault
  decrypt_or_create now user_id random none s = create_dek now user_id random.dek random.dek_nonce s
  decrypt_or_create now user_id random (some d) s = (open_sealed crypto.mek d.encrypted_dek, s)

  unfoldable pub get_or_create_dek : ℕ → String → Random → Vault → Option Bytes × Vault
  unfolding seal open_sealed
  get_or_create_dek now user_id random s =
      decrypt_or_create now user_id random (s.user_deks user_id) s

  -- The three calls of `Encrypt`
  abbrev pub encrypt_all : Bytes → CredentialsInput → Random → Option (Sealed × Sealed × Sealed)
  encrypt_all dek input random = do
    username ← seal dek random.username_nonce (crypto.utf8 input.username)
    password ← seal dek random.password_nonce (crypto.utf8 input.password)
    questions ← seal dek random.questions_nonce (crypto.marshal input.security_questions)
    some (username, password, questions)

  -- The three calls of `Decrypt`, and the questions parsed
  abbrev pub decrypt_all : Bytes → StarbucksCredentials → Option CredentialsInput
  decrypt_all dek cred = do
    username ← open_sealed dek cred.encrypted_username
    password ← open_sealed dek cred.encrypted_password
    raw ← open_sealed dek cred.encrypted_security_questions
    questions ← crypto.unmarshal raw
    some (record {
      username = crypto.text_of username;
      password = crypto.text_of password;
      security_questions = questions;
    })

  unfoldable pub load_credentials : String → Vault → Option CredentialsInput
  unfolding open_sealed
  load_credentials user_id s = do
    d ← s.user_deks user_id
    dek ← open_sealed crypto.mek d.encrypted_dek
    cred ← s.starbucks_credentials user_id
    decrypt_all dek cred

  -- The two statements of `writeCredentials`, and the scrape that it triggers
  abbrev pub store_all : ℕ → String → Option (Sealed × Sealed × Sealed) → Vault → Reply Unit × Vault
  store_all now user_id none s = (internal_server_error, s)
  store_all now user_id (some (username, password, questions)) s = (
    ok tt,
    record s {
      starbucks_credentials =
          put user_id
            (some (record {
              encrypted_username = username;
              encrypted_password = password;
              encrypted_security_questions = questions;
              created_at = first_created now (s.starbucks_credentials user_id);
              updated_at = now;
            }))
            s.starbucks_credentials;
      scrape_schedule =
          put user_id (some (next_planned now (s.scrape_schedule user_id))) s.scrape_schedule;
      triggered = s.triggered ++ user_id ∷ [];
    },
  )

  abbrev pub encrypt_and_store :
      ℕ → String → CredentialsInput → Random → Option Bytes × Vault → Reply Unit × Vault
  encrypt_and_store now user_id input random (none, s) = (internal_server_error, s)
  encrypt_and_store now user_id input random (some dek, s) =
      store_all now user_id (encrypt_all dek input random) s

  -- `writeCredentials` after its limits; `body` is none where it is no JSON of that shape.
  unfoldable pub write_bound :
      ℕ → String → Option CredentialsInput → Random → Vault → Reply Unit × Vault
  unfolding get_or_create_dek seal
  write_bound now user_id none random s = (bad_request, s)
  write_bound now user_id (some input) random s =
      if is_bound input
      then encrypt_and_store now user_id input random (get_or_create_dek now user_id random s)
      else (bad_request, s)

  -- After the two limiters have answered; the second is asked only where the first lets it pass.
  abbrev pub write_limited :
      Bool
      → Bool
      → ℕ
      → String
      → Option CredentialsInput
      → Random
      → Vault
      → Vault
      → Reply Unit × Vault
  write_limited false allowed' now user_id body random s1 s2 = (too_many_requests, s1)
  write_limited true false now user_id body random s1 s2 = (too_many_requests, s2)
  write_limited true true now user_id body random s1 s2 =
      write_bound (unix now) user_id body random s2

  unfoldable pub write_credentials :
      ℕ → String → Option CredentialsInput → Random → Vault → Reply Unit × Vault
  unfolding allow write_bound
  write_credentials now user_id body random s =
      let (allowed, credential_rl) = allow credential_window 1 now user_id s.credential_rl in
      let s1 = record s { credential_rl = credential_rl } in
      let (allowed', scrape_rl) = allow scrape_window 10 now user_id s.scrape_rl in
      let s2 = record s1 { scrape_rl = scrape_rl } in
      write_limited allowed allowed' now user_id body random s1 s2

-- The document that the scraper is given.
abbrev pub document : CredentialsInput → Credentials
document input = record {
  username = some input.username;
  password = some input.password;
  security_questions = some (
      map (λ (q : SecurityQuestion). record { question = some q.question; answer = q.answer })
        input.security_questions);
}

-- `LoadCredentials` as the callback of the scraper calls it
abbrev pub document_of : Option CredentialsInput → Option Credentials
document_of none = none
document_of (some input) = some (document input)
