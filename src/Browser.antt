-- ===== src/Browser.antt =====
-- The parts of the browser that the client reads and writes: `window.location`, one key of
-- `sessionStorage`, and promises that settle with a value or with what was thrown.
-- A handler that awaits is a function from the browser to its settled result and the browser.
pub mod Gives
pub mod Widgets
use starbies_schedule_sync.Base.{String, Option}

pub record Browser : Type 0 where
  pub pathname : String
  pub search : String
  -- `sessionStorage['returnPath']`
  pub return_path : Option String
  -- what `window.location.href` was last set to, a page load that the browser then makes
  pub href : Option String

-- What a `throw` carries: an `Error` with its message, or any other value.
pub data Thrown : Type 0 where
  error : String → Thrown
  other : Thrown

pub data Result {ℓ} (A : Type ℓ) : Type ℓ where
  ok : A → Result A
  err : Thrown → Result A

abbrev pub Async {ℓ} : Type ℓ → Type ℓ
Async A = Browser → Result A × Browser

module _ {ℓ} {A : Type ℓ} where
  abbrev pub pure : A → Async A
  pure a b = (ok a, b)

  abbrev pub throw : Thrown → Async A
  throw e b = (err e, b)

  abbrev pub handle : (Thrown → Async A) → Result A × Browser → Result A × Browser
  handle h (ok a, b) = (ok a, b)
  handle h (err e, b) = h e b

  -- `p.catch(h)`
  abbrev pub catch : Async A → (Thrown → Async A) → Async A
  catch m h b = handle h (m b)

module _ {ℓ κ} {A : Type ℓ} {B : Type κ} where
  abbrev pub continue : (A → Async B) → Result A × Browser → Result B × Browser
  continue f (ok a, b) = f a b
  continue f (err e, b) = (err e, b)

  infixl 5 ◌>>=◌ ◌>>◌
  abbrev pub ◌>>=◌ : Async A → (A → Async B) → Async B
  ◌>>=◌ m f b = continue f (m b)

  abbrev pub ◌>>◌ : Async A → Async B → Async B
  m >> n = m >>= λ _. n
