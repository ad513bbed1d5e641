-- ===== src/Server/Vault/Tests.antt =====
-- Credentials of two users, with a cipher that adds one to each byte.
use starbies_schedule_sync.Base.{
  suc, ◌-◌, ◌*◌, ◌≡◌, ◌≢◌, refl, ap, false, none, some, List, [], ◌∷◌, map, codes, if◌then◌else◌,
  arith,
}
use starbies_schedule_sync.Server.Tables.{select}
use starbies_schedule_sync.Server.Limits.{no_requests}
use starbies_schedule_sync.Server.Scrapes
use starbies_schedule_sync.Server.Scrapes.{ScrapeLog, running, runs_with}
use starbies_schedule_sync.Server.Accounts.{Reply, internal_server_error, nanoseconds, ok}
use starbies_schedule_sync.Server.Calendar.{text_eq}
use starbies_schedule_sync.Server.Vault.{
  Bytes, Crypto, CredentialsInput, Random, SecurityQuestion, Vault, load_credentials,
  write_credentials,
}
use starbies_schedule_sync.Server.Vault.RoundTrip.{load_credentials-write_credentials}
use starbies_schedule_sync.Server.Vault.Refusals.{Keeps, write_credentials-Keeps}

abbrev questions : List SecurityQuestion
questions = record { question = "City?"; answer = "Rome" } ∷ []

abbrev input : CredentialsInput
input = record { username = "ada"; password = "secret"; security_questions = questions }

abbrev master_key : Bytes
master_key = 1 ∷ 2 ∷ 3 ∷ 4 ∷ 5 ∷ 6 ∷ 7 ∷ 8 ∷ 9 ∷ 10 ∷ 11 ∷ 12 ∷ 13 ∷ 14 ∷ 15 ∷ 16 ∷ []

-- Texts and documents that stand for themselves: only those of the tests are read back.
abbrev crypto : Crypto
crypto = record {
  gcm_seal = λ key nonce text. map (λ n. suc n) text;
  gcm_open = λ key nonce text. some (map (λ n. n - 1) text);
  utf8 = codes;
  text_of = λ bytes. if text_eq bytes (codes "ada") then "ada" else "secret";
  marshal = λ qs. codes "questions";
  unmarshal = λ bytes. if text_eq bytes (codes "questions") then some questions else none;
  mek = master_key;
}

random : Random
random = record {
  dek = some master_key;
  dek_nonce = some [];
  username_nonce = some [];
  password_nonce = some [];
  questions_nonce = some [];
}

abbrev empty : Vault
empty = record {
  user_deks = λ id. none;
  starbucks_credentials = λ id. none;
  scrape_schedule = λ id. none;
  credential_rl = no_requests;
  scrape_rl = no_requests;
  triggered = [];
}

map_back : (text : Bytes) → map (λ n. n - 1) (map (λ n. suc n) text) ≡ text
map_back [] = refl
map_back (n ∷ text) = let same : suc n - 1 ≡ n = omega arith in rw (same, map_back text) refl

opens :
    (key nonce text : Bytes)
    → crypto.gcm_open key nonce (crypto.gcm_seal key nonce text) ≡ some text
opens key nonce text = ap some (map_back text)

usernames : crypto.text_of (crypto.utf8 "ada") ≡ "ada"
unfolding codes
usernames = refl

passwords : crypto.text_of (crypto.utf8 "secret") ≡ "secret"
unfolding codes
passwords = refl

parses : crypto.unmarshal (crypto.marshal questions) ≡ some questions
unfolding codes
parses = refl

accepted : (write_credentials crypto (60 * nanoseconds) "u1" (some input) random empty).0 ≡ ok tt
unfolding write_credentials random codes
accepted = refl

load_credentials-write_credentials_example :
    load_credentials crypto "u1"
      (write_credentials crypto (60 * nanoseconds) "u1" (some input) random empty).1
    ≡ some input
load_credentials-write_credentials_example =
    load_credentials-write_credentials crypto input opens usernames passwords parses
      (60 * nanoseconds) "u1" random empty accepted "u1"

-- The nonce of the username cannot be made, after the key was stored.
abbrev without_nonce : Random
without_nonce = record random { username_nonce = none }

abbrev failed : Reply Unit × Vault
failed = write_credentials crypto (60 * nanoseconds) "u1" (some input) without_nonce empty

fails : failed.0 ≡ internal_server_error
unfolding write_credentials random codes
fails = refl

refused : failed.0 ≢ ok tt
unfolding write_credentials random codes
refused h = absurd cc

write_credentials-Keeps_example : Keeps (60 * nanoseconds) "u1" empty failed
write_credentials-Keeps_example =
    write_credentials-Keeps crypto (60 * nanoseconds) "u1" (some input) without_nonce empty refused

abbrev scrape : ScrapeLog
scrape = record {
  id = "l1";
  user_id = "u1";
  started_at = 60;
  finished_at = none;
  status = running;
  shifts_found = none;
  shifts_new = none;
  error_message = none;
  scrape_key = "k1";
  credentials_fetched_at = none;
  log_output = none;
  failure_screenshots = none;
  retry_count = 0;
  is_auto = false;
}

abbrev server : Scrapes.Server
server = record {
  scrape_logs = scrape ∷ [];
  shifts = [];
  scrape_schedule = λ id. none;
  retries = [];
}

runs : select (runs_with "k1") server.scrape_logs ≡ some scrape
unfolding select
runs = refl
