-- ===== src/Server/Vault/Keys.antt =====
-- What `getOrCreateDEK` changes.
use starbies_schedule_sync.Base.{
  ℕ, ◌≡◌, ◌⊎◌, inl, inr, refl, String, false, Option, none, some, put, str_eq,
}
use starbies_schedule_sync.Server.Vault.{
  Bytes, Crypto, Random, Sealed, UserDek, Vault, create_dek, decrypt_or_create, get_or_create_dek,
  seal, store_dek,
}

-- The keys are the same, or the user, who had none, has one.
abbrev pub AddsKey : String → (String → Option UserDek) → (String → Option UserDek) → Type 0
AddsKey user_id old new =
    (new ≡ old) ⊎ ((d : UserDek) × (old user_id ≡ none) × (new ≡ put user_id (some d) old))

pub AddsKey-other :
    (user_id : String) (old new : String → Option UserDek)
    → AddsKey user_id old new
    → (other : String) → str_eq user_id other ≡ false
    → new other ≡ old other
AddsKey-other user_id old new (inl same) other h = rw same refl
AddsKey-other user_id old new (inr (d, missing, added)) other h = rw (added, h) refl

module _ (crypto : Crypto) where
  -- Only the keys are changed.
  abbrev pub Grows : String → Vault → Vault → Type 0
  Grows user_id s s' =
      (deks : String → Option UserDek) × (s' ≡ record s { user_deks = deks })
      × AddsKey user_id s.user_deks deks

  store_dek-Grows :
      (now : ℕ) (user_id : String) (dek : Bytes) (c : Option Sealed) (s : Vault)
      → s.user_deks user_id ≡ none
      → Grows user_id s (store_dek crypto now user_id dek c s).1
  store_dek-Grows now user_id dek none s missing = (s.user_deks, refl, inl refl)
  store_dek-Grows now user_id dek (some c) s missing =
      (_, refl, inr (record { encrypted_dek = c; created_at = now }, missing, refl))

  decrypt_or_create-Grows :
      (now : ℕ) (user_id : String) (random : Random) (found : Option UserDek) (s : Vault)
      → s.user_deks user_id ≡ found
      → Grows user_id s (decrypt_or_create crypto now user_id random found s).1
  decrypt_or_create-Grows now user_id random (some d) s e = (s.user_deks, refl, inl refl)
  decrypt_or_create-Grows now user_id random none s e = create random.dek
    where
      create :
          (dek : Option Bytes)
          → Grows user_id s (create_dek crypto now user_id dek random.dek_nonce s).1
      create none = (s.user_deks, refl, inl refl)
      create (some dek) =
          store_dek-Grows now user_id dek (seal crypto crypto.mek random.dek_nonce dek) s e

  pub get_or_create_dek-Grows :
      (now : ℕ) (user_id : String) (random : Random) (s : Vault)
      → Grows user_id s (get_or_create_dek crypto now user_id random s).1
  unfolding get_or_create_dek
  get_or_create_dek-Grows now user_id random s =
      decrypt_or_create-Grows now user_id random (s.user_deks user_id) s refl
