-- ===== src/Api/Cache/Invariant.antt =====
-- What holds of the store between two events.
use starbies_schedule_sync.Base.{
  ℕ, String, ◌≤◌, ◌≡◌, refl, Option, none, some, List, [], ◌∷◌, arith, eq_iff,
}
use starbies_schedule_sync.Browser.{Thrown}
use starbies_schedule_sync.Api.Cache.{
  Store, Promise, pending, resolved, Event, ask, fulfil, fail, empty, settle_ok, settle_err, step,
  run,
}

module _ {ℓ} {A : Type ℓ} where
  -- A promise of the key that may still be shared: in flight or resolved.
  abbrev pub IsLive : String → Option (Promise A) → Type 0
  IsLive k (some (pending j)) = j ≡ k
  IsLive k (some (resolved j _)) = j ≡ k
  IsLive k _ = ⊥

  pub record Inv (s : Store A) : Type ℓ where
    -- what the map holds can be shared
    pub live : (k : String) (p : ℕ) → s.cache k ≡ some p → IsLive k (s.promises p)
    -- what can be shared is in the map
    pub listed : (k : String) (p : ℕ) → IsLive k (s.promises p) → s.cache k ≡ some p
    pub fresh : (p : ℕ) → s.next ≤ p → s.promises p ≡ none

  empty-Inv : Inv empty
  empty-Inv = record { live = λ k p h. cc; listed = λ k p h. absurd h; fresh = λ p h. refl }

  module _ (s : Store A) (q : ℕ) (inv : Inv s) where
    fulfil-Inv : (v : A) (o : Option (Promise A)) → s.promises q ≡ o → Inv (settle_ok q v o s)
    unfolding settle_ok
    fulfil-Inv v (some (pending j)) e = record {
      live = λ k p h. ground (arith, inv.live k p);
      listed = λ k p h. ground (arith, inv.listed k p);
      fresh = λ p h. ground (arith, inv.fresh p);
    }
    fulfil-Inv v _ e = inv

    fail-Inv : (x : Thrown) (o : Option (Promise A)) → s.promises q ≡ o → Inv (settle_err q x o s)
    unfolding settle_err
    fail-Inv x (some (pending j)) e = record {
      live = λ k p h. ground (arith, eq_iff j k, inv.live k p, inv.listed j q);
      listed = λ k p h. ground (arith, eq_iff j k, inv.listed k p, inv.listed j q);
      fresh = λ p h. ground (arith, inv.fresh p);
    }
    fail-Inv x _ e = inv

  -- Every event keeps the invariant.
  pub step-Inv : (s : Store A) (e : Event A) → Inv s → Inv (step s e)
  unfolding step
  step-Inv s (ask key) inv = record {
    live = λ k p h. ground (arith, eq_iff key k, inv.live k p, inv.fresh s.next);
    listed = λ k p h. ground (arith, eq_iff key k, inv.listed k p, inv.fresh s.next);
    fresh = λ p h. ground (arith, inv.fresh p);
  }
  step-Inv s (fulfil q v) inv = fulfil-Inv s q inv v (s.promises q) refl
  step-Inv s (fail q x) inv = fail-Inv s q inv x (s.promises q) refl

  run-Inv : (s : Store A) (es : List (Event A)) → Inv s → Inv (run s es)
  unfolding run
  run-Inv s [] inv = inv
  run-Inv s (e ∷ es) inv = run-Inv (step s e) es (step-Inv s e inv)

  pub run-empty-Inv : (es : List (Event A)) → Inv (run empty es)
  run-empty-Inv es = run-Inv empty es empty-Inv
