-- ===== src/Scraper/Job/Leaves.antt =====
-- What a script posts, and how often it closes the browser: how this adds up along a run.
use mathlib.Core.List.{append-nil, append_assoc}
use starbies_schedule_sync.Base.{
  ℕ, ◌+◌, ◌≡◌, ◌⊎◌, inl, inr, refl, sym, ap, ◌∙◌, String, Option, List, [], ◌∷◌, ◌++◌, arith,
}
use starbies_schedule_sync.Scraper.Schedule.{Shift}
use starbies_schedule_sync.Scraper.Script.{
  Settled, value, threw, Run, Script, Post, shifts_post, ◌>>=◌, continue, finish,
}
use starbies_schedule_sync.Scraper.Script.Progress.{IsPrefix, IsPrefix-trans, Progress, Proceeds}

module _ {W : Type 0} where
  -- From `s` to `t` the bodies `sent` were posted and the browser was closed `n` times.
  pub record Leaves (s t : Run W) (sent : List Post) (n : ℕ) : Type 0 where
    pub log_lines : IsPrefix s.log_lines t.log_lines
    pub posts : t.posts ≡ s.posts ++ sent
    pub closes : t.closes ≡ s.closes + n

  pub Leaves-of_Progress : {s t : Run W} → Progress s t → Leaves s t [] 0
  Leaves-of_Progress {s} p = record {
    log_lines = p.log_lines;
    posts = p.posts ∙ sym (append-nil s.posts);
    closes = omega (arith, p.closes);
  }

  pub Leaves-Progress :
      {s t u : Run W} {a : List Post} {n : ℕ} → Leaves s t a n → Progress t u → Leaves s u a n
  Leaves-Progress p q = record {
    log_lines = IsPrefix-trans _ _ _ p.log_lines q.log_lines;
    posts = q.posts ∙ p.posts;
    closes = q.closes ∙ p.closes;
  }

  pub Progress-Leaves :
      {s t u : Run W} {a : List Post} {n : ℕ} → Progress s t → Leaves t u a n → Leaves s u a n
  Progress-Leaves {a} {n} p q = record {
    log_lines = IsPrefix-trans _ _ _ p.log_lines q.log_lines;
    posts = q.posts ∙ ap (λ l. l ++ a) p.posts;
    closes = q.closes ∙ ap (λ k. k + n) p.closes;
  }

  pub Leaves-trans :
      {s t u : Run W} {a b : List Post} {n m : ℕ}
      → Leaves s t a n
      → Leaves t u b m
      → Leaves s u (a ++ b) (n + m)
  Leaves-trans {s} {a} {b} p q = record {
    log_lines = IsPrefix-trans _ _ _ p.log_lines q.log_lines;
    posts = q.posts ∙ ap (λ l. l ++ b) p.posts ∙ append_assoc s.posts a b;
    closes = omega (arith, p.closes, q.closes);
  }

  pub continue-Leaves :
      {A B : Type 0} (f : A → Script W B) (s : Run W) (r : Settled A × Run W) {a : List Post}
      {n : ℕ}
      → Leaves s r.1 a n
      → ((x : A) → Proceeds (f x))
      → Leaves s (continue f r).1 a n
  continue-Leaves f s (value x, t) p k = Leaves-Progress p ((k x).at t)
  continue-Leaves f s (threw message, t) p k = p

-- Just the shifts were posted.
abbrev pub IsShifts : List Post → Type 0
IsShifts sent =
    (shifts : List Shift) × (home_site : Option String) × (sent ≡ shifts_post shifts home_site ∷ [])

module _ {W : Type 0} where
  -- A script that returns has posted the shifts; one that throws may have.
  abbrev pub After : Run W → Settled Unit × Run W → ℕ → Type 0
  After s (value _, t) n = (sent : List Post) × IsShifts sent × Leaves s t sent n
  After s (threw message, t) n =
      (sent : List Post) × ((sent ≡ []) ⊎ IsShifts sent) × Leaves s t sent n

  pub After-of_Leaves :
      (s : Run W) (r : Settled Unit × Run W) (sent : List Post) {n : ℕ}
      → IsShifts sent
      → Leaves s r.1 sent n
      → After s r n
  After-of_Leaves s (value _, t) sent i p = (sent, i, p)
  After-of_Leaves s (threw message, t) sent i p = (sent, inr i, p)

  pub Progress-After :
      (s t : Run W) (r : Settled Unit × Run W) (n : ℕ) → Progress s t → After t r n → After s r n
  Progress-After s t (value _, u) n p (sent, i, q) = (sent, i, Progress-Leaves p q)
  Progress-After s t (threw message, u) n p (sent, i, q) = (sent, i, Progress-Leaves p q)

  pub continue-After :
      {A : Type 0} (f : A → Script W Unit) (s : Run W) (r : Settled A × Run W)
      → Progress s r.1
      → ((a : A) (t : Run W) → After t (f a t) 0)
      → After s (continue f r) 0
  continue-After f s (value a, t) p k = Progress-After s t (f a t) 0 p (k a t)
  continue-After f s (threw message, t) p k = ([], inl refl, Leaves-of_Progress p)

  pub bind-After :
      {A : Type 0} (m : Script W A) (f : A → Script W Unit)
      → Proceeds m
      → ((a : A) (t : Run W) → After t (f a t) 0)
      → (s : Run W) → After s ((m >>= f) s) 0
  unfolding ◌>>=◌
  bind-After m f p k s = continue-After f s (m s) (p.at s) k

  pub finish-After :
      (s : Run W) (r : Settled Unit × Run W) (c : Settled Unit × Run W)
      → After s r 0
      → Leaves r.1 c.1 [] 1
      → After s (finish r.0 c) 1
  finish-After s (value _, t) (value _, u) (sent, i, p) q =
      (sent, i, rw (append-nil sent) at (Leaves-trans p q))
  finish-After s (value _, t) (threw message, u) (sent, i, p) q =
      (sent, inr i, rw (append-nil sent) at (Leaves-trans p q))
  finish-After s (threw message, t) (value _, u) (sent, i, p) q =
      (sent, i, rw (append-nil sent) at (Leaves-trans p q))
  finish-After s (threw message, t) (threw message', u) (sent, i, p) q =
      (sent, i, rw (append-nil sent) at (Leaves-trans p q))
