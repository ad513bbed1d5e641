-- ===== src/Browser/Gives.antt =====
-- An awaited computation that gives a value from every state of the browser.
use starbies_schedule_sync.Base.{◌≡◌, ◌∙◌, ap, arith}
use starbies_schedule_sync.Browser.{Browser, Result, ok, Async, continue, ◌>>=◌}

abbrev pub Gives {ℓ} : {A : Type ℓ} → Async A → A → Type ℓ
Gives m a = (b : Browser) → (m b).0 ≡ ok a

module _ {ℓ κ} {A : Type ℓ} {B : Type κ} where
  continue-ok :
      (f : A → Async B) (r : Result A × Browser) (a : A) → r.0 ≡ ok a → continue f r ≡ f a r.1
  continue-ok f (ok a', b) a h = ground arith
  continue-ok f (r, b) a h = cc

  pub Gives->>= :
      (m : Async A) (f : A → Async B) {a : A} {c : B}
      → Gives m a
      → Gives (f a) c
      → Gives (m >>= f) c
  Gives->>= m f {a} h k b =
      ap (λ (r : Result B × Browser). r.0) (continue-ok f (m b) a (h b)) ∙ k (m b).1
