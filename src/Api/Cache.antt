-- ===== src/Api/Cache.antt =====
-- `cached` of web/src/lib/api.ts: a map from keys to promises, in front of `request`.
-- A promise is named by the number of its creation; `next` counts the calls of `fn` so far.
pub mod Invariant
pub mod Sharing
use starbies_schedule_sync.Base.{
  ℕ, suc, String, ◌≡◌, Option, none, some, List, [], ◌∷◌, ◌==◌, if◌then◌else◌, str_eq, put,
}
use starbies_schedule_sync.Browser.{Thrown}

-- The promise `fn().catch(…)` of a key.
pub data Promise {ℓ} (A : Type ℓ) : Type ℓ where
  pending : (key : String) → Promise A
  resolved : (key : String) → A → Promise A
  rejected : (key : String) → Thrown → Promise A

pub record Store {ℓ} (A : Type ℓ) : Type ℓ where
  -- the map `cache`
  pub cache : String → Option ℕ
  pub promises : ℕ → Option (Promise A)
  pub next : ℕ

pub data Event {ℓ} (A : Type ℓ) : Type ℓ where
  ask : (key : String) → Event A
  fulfil : ℕ → A → Event A
  fail : ℕ → Thrown → Event A

module _ {ℓ} {V : Type ℓ} where
  abbrev pub put_at : ℕ → V → (ℕ → V) → ℕ → V
  put_at n v f m = if n == m then v else f m

module _ {ℓ} {A : Type ℓ} where
  abbrev pub empty : Store A
  empty = record { cache = λ _. none; promises = λ _. none; next = 0 }

  pub fetch : String → Option ℕ → Store A → ℕ × Store A
  fetch key (some p) s = (p, s)
  fetch key none s = (
    s.next,
    record {
      cache = put key (some s.next) s.cache;
      promises = put_at s.next (some (pending key)) s.promises;
      next = suc s.next;
    },
  )

  -- `cached(key, fn)`: the promise that it returns, and the store.
  unfoldable pub cached : String → Store A → ℕ × Store A
  unfolding fetch
  cached key s = fetch key (s.cache key) s

  settle_ok : ℕ → A → Option (Promise A) → Store A → Store A
  settle_ok p v (some (pending key)) s = record s {
    promises = put_at p (some (resolved key v)) s.promises;
  }
  settle_ok p v _ s = s

  -- The `catch` handler deletes the key, then throws on.
  settle_err : ℕ → Thrown → Option (Promise A) → Store A → Store A
  settle_err p e (some (pending key)) s = record s {
    cache = put key none s.cache;
    promises = put_at p (some (rejected key e)) s.promises;
  }
  settle_err p e _ s = s

  -- A promise that has settled ignores what comes later.
  unfoldable pub step : Store A → Event A → Store A
  unfolding cached settle_ok settle_err
  step s (ask key) = (cached key s).1
  step s (fulfil p v) = settle_ok p v (s.promises p) s
  step s (fail p e) = settle_err p e (s.promises p) s

  unfoldable pub run : Store A → List (Event A) → Store A
  run s [] = s
  run s (e ∷ es) = run (step s e) es
