-- ===== src/Scraper/Script/Progress.antt =====
-- What every step of the script keeps until it submits: nothing is posted, the browser stays open,
-- time does not run backwards, and the log only grows. One rule for each way to build a script.
use mathlib.Core.List.{append-nil, append_assoc}
use native.Mathlib.Nat.{le_refl, le_trans}
use starbies_schedule_sync.Base.{
  ◌≤◌, ◌+◌, ◌≡◌, refl, sym, ap, ◌∙◌, String, Bool, true, false, Option, none, some, List, [], ◌∷◌,
  ◌++◌, arith, length, if◌then◌else◌,
}
use starbies_schedule_sync.Api.Request.{includes}
use starbies_schedule_sync.Scraper.Schedule.{Day, Week}
use starbies_schedule_sync.Scraper.Script.{
  Line, PageResponse, Reply, Settled, value, threw, Run, Script, pure, throw, catch, ◌>>=◌, log,
  on_response, on_responses, await, continue, handle, capture, capture_days, captured_week,
}

abbrev pub IsPrefix : List Line → List Line → Type 0
IsPrefix xs ys = (zs : List Line) × (ys ≡ xs ++ zs)

IsPrefix-refl : (xs : List Line) → IsPrefix xs xs
IsPrefix-refl xs = ([], sym (append-nil xs))

pub IsPrefix-trans : (xs ys zs : List Line) → IsPrefix xs ys → IsPrefix ys zs → IsPrefix xs zs
IsPrefix-trans xs ys zs (a, e) (b, f) = (a ++ b, f ∙ ap (λ l. l ++ b) e ∙ append_assoc xs a b)

module _ {W : Type 0} where
  pub record Progress (s t : Run W) : Type 0 where
    pub time : s.time ≤ t.time
    pub log_lines : IsPrefix s.log_lines t.log_lines
    pub posts : t.posts ≡ s.posts
    pub closes : t.closes ≡ s.closes

  pub Progress-refl : (s : Run W) → Progress s s
  Progress-refl s = record {
    time = le_refl s.time;
    log_lines = IsPrefix-refl s.log_lines;
    posts = refl;
    closes = refl;
  }

  pub Progress-trans : {s t u : Run W} → Progress s t → Progress t u → Progress s u
  Progress-trans {s} {t} {u} p q = record {
    time = le_trans p.time q.time;
    log_lines = IsPrefix-trans s.log_lines t.log_lines u.log_lines p.log_lines q.log_lines;
    posts = q.posts ∙ p.posts;
    closes = q.closes ∙ p.closes;
  }

  logged :
      (line : Line) (s : Run W) → Progress s (record s { log_lines = s.log_lines ++ line ∷ [] })
  logged line s = record {
    time = le_refl s.time;
    log_lines = (line ∷ [], refl);
    posts = refl;
    closes = refl;
  }

  capture_days-Progress :
      (days : Option (List Day)) (week : Week) (s : Run W) → Progress s (capture_days days week s)
  capture_days-Progress none week s = Progress-refl s
  capture_days-Progress (some days) week s = record {
    time = le_refl s.time;
    log_lines = (captured_week (length days) (length s.captured_weeks + 1) ∷ [], refl);
    posts = refl;
    closes = refl;
  }

  capture-Progress : (document : Option Week) (s : Run W) → Progress s (capture document s)
  capture-Progress none s = Progress-refl s
  capture-Progress (some week) s = capture_days-Progress week.days week s

  if-Progress : (b : Bool) (s t : Run W) → Progress s t → Progress s (if b then t else s)
  if-Progress true s t p = p
  if-Progress false s t p = Progress-refl s

  on_response-Progress : (r : PageResponse) (s : Run W) → Progress s (on_response r s)
  unfolding on_response
  on_response-Progress r s =
      if-Progress (includes r.url "/mySchedules/") s (capture r.document s)
        (capture-Progress r.document s)

  on_responses-Progress : (rs : List PageResponse) (s : Run W) → Progress s (on_responses rs s)
  unfolding on_responses
  on_responses-Progress [] s = Progress-refl s
  on_responses-Progress (r ∷ rs) s =
      Progress-trans (on_response-Progress r s) (on_responses-Progress rs (on_response r s))

  -- `m` only makes progress, whether it returns or throws.
  pub record Proceeds {A : Type 0} (m : Script W A) : Type 0 where
    pub at : (s : Run W) → Progress s (m s).1

  pub Proceeds-pure : {A : Type 0} (a : A) → Proceeds (pure {W = W} a)
  Proceeds-pure a = record { at = Progress-refl }

  pub Proceeds-throw : {A : Type 0} (message : String) → Proceeds (throw {W = W} {A = A} message)
  Proceeds-throw message = record { at = Progress-refl }

  pub Proceeds-log : (line : Line) → Proceeds (log {W = W} line)
  unfolding log
  Proceeds-log line = record { at = logged line }

  pub Proceeds-await : {A : Type 0} (operation : W → Reply W A) → Proceeds (await operation)
  unfolding await
  Proceeds-await operation = record {
    at = λ s.
        let reply = operation s.world in
        let s' = record s { time = s.time + reply.elapsed; world = reply.world } in
        let p : Progress s s' = record {
          time = omega arith;
          log_lines = IsPrefix-refl s.log_lines;
          posts = refl;
          closes = refl;
        } in
        Progress-trans p (on_responses-Progress reply.responses s');
  }

  module _ {A B : Type 0} where
    continue-Progress :
        (f : A → Script W B) (s : Run W) (r : Settled A × Run W)
        → Progress s r.1
        → ((a : A) → Proceeds (f a))
        → Progress s (continue f r).1
    continue-Progress f s (value a, t) p k = Progress-trans p ((k a).at t)
    continue-Progress f s (threw message, t) p k = p

    pub Proceeds-bind :
        (m : Script W A) (f : A → Script W B)
        → Proceeds m
        → ((a : A) → Proceeds (f a))
        → Proceeds (m >>= f)
    unfolding ◌>>=◌
    Proceeds-bind m f p k = record { at = λ s. continue-Progress f s (m s) (p.at s) k }

  module _ {A : Type 0} where
    handle-Progress :
        (h : String → Script W A) (s : Run W) (r : Settled A × Run W)
        → Progress s r.1
        → ((message : String) → Proceeds (h message))
        → Progress s (handle h r).1
    handle-Progress h s (value a, t) p k = p
    handle-Progress h s (threw message, t) p k = Progress-trans p ((k message).at t)

    pub Proceeds-catch :
        (m : Script W A) (h : String → Script W A)
        → Proceeds m
        → ((message : String) → Proceeds (h message))
        → Proceeds (catch m h)
    unfolding catch
    Proceeds-catch m h p k = record { at = λ s. handle-Progress h s (m s) (p.at s) k }

    pub Proceeds-if :
        (b : Bool) (m n : Script W A) → Proceeds m → Proceeds n → Proceeds (if b then m else n)
    Proceeds-if true m n p q = p
    Proceeds-if false m n p q = q

pub ruleset proceeds_rules = (
  Proceeds-pure, Proceeds-throw, Proceeds-log, Proceeds-await, Proceeds-bind, Proceeds-catch,
  Proceeds-if,
)
