-- ===== src/Api/Cache/Sharing.antt =====
-- Concurrent and repeated calls share one request, and a failed one is made anew.
use starbies_schedule_sync.Base.{
  ℕ, suc, String, ◌≡◌, ◌≢◌, refl, Option, none, some, List, [], ◌∷◌, arith, eq_iff, All,
}
use starbies_schedule_sync.Browser.{Thrown}
use starbies_schedule_sync.Api.Cache.{
  Store, Promise, pending, Event, ask, fulfil, fail, empty, fetch, cached, settle_ok, settle_err,
  step, run,
}
use starbies_schedule_sync.Api.Cache.Invariant.{IsLive, Inv, step-Inv, run-empty-Inv}

module _ {ℓ} {A : Type ℓ} where
  -- After any calls and settlements, at most one promise of a key is in flight or resolved: two
  -- requests for the same key never run at once, nor one beside a result.
  pub single_flight :
      (es : List (Event A)) (k : String) (p q : ℕ)
      → IsLive k ((run empty es).promises p)
      → IsLive k ((run empty es).promises q)
      → p ≡ q
  single_flight es k p q hp hq =
      let inv = run-empty-Inv es in cc (inv.listed k p hp, inv.listed k q hq)

  -- The answer to a call: a promise that can be shared; the one there is, with nothing changed; or
  -- a new one, if there is none.
  abbrev pub Answers : String → Store A → ℕ × Store A → Type ℓ
  Answers k s r =
      IsLive k (r.1.promises r.0)
      × ((p : ℕ) → IsLive k (s.promises p) → (r.0 ≡ p) × (r.1 ≡ s))
      × (((p : ℕ) → ¬ IsLive k (s.promises p)) → (r.0 ≡ s.next) × (r.1.next ≡ suc s.next))

  fetch-Answers :
      (s : Store A) (k : String) (o : Option ℕ) → s.cache k ≡ o → Inv s → Answers k s (fetch k o s)
  unfolding fetch
  fetch-Answers s k none e inv = (ground arith, λ p h. cc (e, inv.listed k p h), λ h. ground arith)
  fetch-Answers s k (some q) e inv =
      (inv.live k q e, λ p h. (cc (e, inv.listed k p h), refl), λ h. absurd (h q (inv.live k q e)))

  -- After any calls and settlements, a call is answered with a promise of its own key that is in
  -- flight or resolved, never a rejected one. If there is such a promise, that one is returned and
  -- nothing changes; if there is none, one request is started.
  pub cached-Answers :
      (es : List (Event A)) (k : String) → Answers k (run empty es) (cached k (run empty es))
  unfolding cached
  cached-Answers es k =
      let s = run empty es in fetch-Answers s k (s.cache k) refl (run-empty-Inv es)

  -- An event that is no failure of the promise `p`.
  abbrev pub Spares : ℕ → Event A → Type 0
  Spares p (fail q _) = p ≢ q
  Spares p _ = Unit

  module _ (s : Store A) (k : String) (p : ℕ) (h : s.cache k ≡ some p) where
    ask_keeps : (key : String) (o : Option ℕ) → s.cache key ≡ o → (fetch key o s).1.cache k ≡ some p
    unfolding fetch
    ask_keeps key none e = ground (arith, eq_iff key k)
    ask_keeps key (some q) e = h

    fulfil_keeps : (q : ℕ) (v : A) (o : Option (Promise A)) → (settle_ok q v o s).cache k ≡ some p
    unfolding settle_ok
    fulfil_keeps q v o = ground arith

    fail_keeps :
        (q : ℕ) (x : Thrown) (o : Option (Promise A))
        → s.promises q ≡ o
        → Inv s
        → p ≢ q
        → (settle_err q x o s).cache k ≡ some p
    unfolding settle_err
    fail_keeps q x (some (pending j)) e inv d = ground (arith, eq_iff j k, inv.listed j q)
    fail_keeps q x _ e inv d = h

    step_keeps : (e : Event A) → Inv s → Spares p e → (step s e).cache k ≡ some p
    unfolding step cached
    step_keeps (ask key) inv d = ask_keeps key (s.cache key) refl
    step_keeps (fulfil q v) inv d = fulfil_keeps q v (s.promises q)
    step_keeps (fail q x) inv d = fail_keeps q x (s.promises q) refl inv d

  run_keeps :
      (es : List (Event A)) (s : Store A) (k : String) (p : ℕ)
      → Inv s
      → All (Spares p) es
      → s.cache k ≡ some p
      → (run s es).cache k ≡ some p
  unfolding run
  run_keeps [] s k p inv d h = h
  run_keeps (e ∷ es) s k p inv (d, ds) h =
      run_keeps es (step s e) k p (step-Inv s e inv) ds (step_keeps s k p h e inv d)

  cached_of : (s : Store A) (k : String) (p : ℕ) → s.cache k ≡ some p → cached k s ≡ (p, s)
  unfolding cached fetch
  cached_of s k p h = rw h

  -- A promise of a key that is in flight or resolved answers every later call for the key, with no
  -- further request, as long as it does not fail itself.
  pub cached-run :
      (es fs : List (Event A)) (k : String) (p : ℕ)
      → IsLive k ((run empty es).promises p)
      → All (Spares p) fs
      → cached k (run (run empty es) fs) ≡ (p, run (run empty es) fs)
  cached-run es fs k p live spared =
      let inv = run-empty-Inv es in
      cached_of _ k p (run_keeps fs (run empty es) k p inv spared (inv.listed k p live))

  -- After the failure of a request in flight, the next call for its key starts a new one.
  pub cached-fail :
      (es : List (Event A)) (k : String) (p : ℕ) (x : Thrown)
      → (run empty es).promises p ≡ some (pending k)
      → let s = step (run empty es) (fail p x) in (cached k s).1.next ≡ suc (run empty es).next
  unfolding step settle_err cached fetch
  cached-fail es k p x h = ground (arith, eq_iff k k)
