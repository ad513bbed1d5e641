-- ===== src/Scraper/Job/Reports.antt =====
-- What a run of the script leaves: its posts, the browser, and the exit status.
use mathlib.Core.List.{append-nil}
use starbies_schedule_sync.Base.{
  ℕ, ◌+◌, ◌≤◌, ◌≡◌, ◌⊎◌, inl, inr, refl, sym, ◌∙◌, String, Option, none, some, List, [], ◌∷◌, ◌++◌,
  map, arith, length,
}
use starbies_schedule_sync.Base.Int.{ℤ}
use starbies_schedule_sync.Scraper.Schedule.{merge_schedule_data, extract_shifts}
use starbies_schedule_sync.Scraper.Script.{
  Line, fetching_credentials, launching_browser, counted, submitted, error_line, Screenshot,
  Settled, value, threw, Run, Script, Outside, Post, failure_post, Response, pure, catch, finally,
  ◌>>=◌, log, await, continue, handle,
}
use starbies_schedule_sync.Scraper.Script.Progress.{
  IsPrefix, Progress, Progress-refl, Progress-trans, Proceeds, Proceeds-bind, Proceeds-log,
  Proceeds-await, Proceeds-throw, Proceeds-if,
}
use starbies_schedule_sync.Scraper.Job.{
  json_of, settle, in_browser, Keys, keys_of, fetch_credentials, send, post_json, open_login_page,
  authenticate, open_schedule, capture_weeks, report_of, submit_results, session, close_browser,
  with_browser, run, report_failure, main, exit_of,
}
use starbies_schedule_sync.Scraper.Job.Effects.{
  open_login_page-Proceeds, authenticate-Proceeds, open_schedule-Proceeds, capture_weeks-Proceeds,
}
use starbies_schedule_sync.Scraper.Job.Leaves.{
  Leaves, Leaves-of_Progress, Progress-Leaves, Leaves-trans, continue-Leaves, IsShifts, After,
  After-of_Leaves, bind-After, finish-After,
}

module _ {W : Type 0} (o : Outside W) (api_url : String) where
  json_of-Proceeds :
      {A : Type 0} (res : Response A) (call : String) → Proceeds (json_of o api_url res call)
  json_of-Proceeds res call =
      Proceeds-if res.ok (settle o api_url res.json) _ (record { at = Progress-refl })
        (Proceeds-throw _)

  fetch_credentials-Proceeds : Proceeds (fetch_credentials o api_url)
  unfolding fetch_credentials
  fetch_credentials-Proceeds =
      Proceeds-bind (await (o.get_credentials)) _ (Proceeds-await (o.get_credentials))
        (λ res. json_of-Proceeds res _)

  post_json-Leaves :
      (body : Post) (s : Run W) → Leaves s (post_json o api_url body s).1 (body ∷ []) 0
  unfolding post_json ◌>>=◌
  post_json-Leaves body s =
      let s' = record s { posts = s.posts ++ body ∷ [] } in
      let p = (Proceeds-await (o.post body)).at s' in
      continue-Leaves _ s (send o api_url body s)
        (record { log_lines = p.log_lines; posts = p.posts; closes = omega (arith, p.closes) })
        (λ res. json_of-Proceeds res _)

-- The log is all that was logged before the run and during it, and then the error that it ended with;
-- the script's own log goes on after it.
pub record IsWhole {W : Type 0} (s : Run W) (r : Settled Unit × Run W) (t : Run W)
    (message : String) (logs : List Line) : Type 0 where
  pub error : r.0 ≡ threw message
  pub before : IsPrefix s.log_lines r.1.log_lines
  pub all : logs ≡ r.1.log_lines ++ error_line message ∷ []
  pub after : IsPrefix logs t.log_lines

-- The first line is logged.
abbrev pub begun : {W : Type 0} → Run W → Run W
begun s = record s { log_lines = s.log_lines ++ fetching_credentials ∷ [] }

-- How the process that began at `s` ended at `t`, where `run` ended as `r`.
abbrev pub Ended : {W : Type 0} → Run W → Settled Unit × Run W → ℕ → Run W → Type 0
Ended s r status t =
    ((status ≡ 0) × (r.0 ≡ value tt) × ((sent : List Post) × IsShifts sent × Leaves s t sent 1))
    ⊎ ((status ≡ 1)
        × ((sent : List Post) × (n : ℕ) × (message : String) × (logs : List Line) × ((sent ≡ [])
              ⊎ IsShifts sent)
            × (n ≤ 1)
            × IsWhole s r t message logs
            × Leaves s t
                (sent
                  ++ failure_post logs (map (λ (x : Screenshot). x.base64) r.1.screenshots) ∷ [])
                n))

module _ {W : Type 0} (o : Outside W) (api_url : String) (to_lower_case : String → String)
    (date : String → Option ℤ) where
  submit_results-After : (s : Run W) → After s (submit_results o api_url to_lower_case date s) 0
  unfolding submit_results ◌>>=◌ log
  submit_results-After s =
      let weeks = s.captured_weeks in
      let report = report_of o api_url to_lower_case date weeks in
      let line =
        counted (length weeks) (length (extract_shifts (merge_schedule_data date weeks))) in
      let s' = record s { log_lines = s.log_lines ++ line ∷ [] } in
      After-of_Leaves s _ (report ∷ []) (_, _, refl)
        (continue-Leaves (λ _. log submitted) s (post_json o api_url report s')
          (Progress-Leaves ((Proceeds-log line).at s) (post_json-Leaves o api_url report s'))
          (λ _. Proceeds-log submitted))

  session-After :
      (keys : Keys) (s : Run W) → After s (session o api_url to_lower_case date keys s) 0
  unfolding session
  session-After keys = bind-After (await (o.new_page)) _ (Proceeds-await (o.new_page)) λ _.
      bind-After (open_login_page o keys.username) _ (open_login_page-Proceeds o keys.username) λ _.
        bind-After (authenticate o to_lower_case keys) _
          (authenticate-Proceeds o to_lower_case keys)
          λ _.
            bind-After (open_schedule o) _ (open_schedule-Proceeds o) λ _.
              bind-After (capture_weeks o) _ (capture_weeks-Proceeds o) λ _. submit_results-After

  close_browser-Leaves :
      (s : Run W) → Leaves s (close_browser o api_url to_lower_case date s).1 [] 1
  unfolding close_browser
  close_browser-Leaves s =
      let p = (Proceeds-await (o.close)).at (record s { closes = s.closes + 1 }) in
      record {
        log_lines = p.log_lines;
        posts = p.posts ∙ sym (append-nil s.posts);
        closes = p.closes;
      }

  -- Once the browser is launched, and whatever it and the server do: the browser is closed exactly
  -- once; the script returns only if it has posted the shifts, in one post; and if it throws it has
  -- posted nothing, or the shifts once.
  pub in_browser-After :
      (keys : Keys) (s : Run W) → After s (in_browser o api_url to_lower_case date keys s) 1
  unfolding in_browser finally
  in_browser-After keys s =
      let r = session o api_url to_lower_case date keys s in
      finish-After s r (close_browser o api_url to_lower_case date r.1) (session-After keys s)
        (close_browser-Leaves r.1)

  -- How `run` leaves what it found: it returned, or it threw before or after the browser was there.
  abbrev AfterRun : Run W → Settled Unit × Run W → Type 0
  AfterRun s (value _, t) = (sent : List Post) × IsShifts sent × Leaves s t sent 1
  AfterRun s (threw message, t) =
      (sent : List Post) × (n : ℕ) × ((sent ≡ []) ⊎ IsShifts sent) × (n ≤ 1) × Leaves s t sent n

  in_browser-AfterRun :
      (s t : Run W) (r : Settled Unit × Run W) → Progress s t → After t r 1 → AfterRun s r
  in_browser-AfterRun s t (value _, u) p (sent, i, q) = (sent, i, Progress-Leaves p q)
  in_browser-AfterRun s t (threw message, u) p (sent, i, q) =
      (sent, 1, i, omega arith, Progress-Leaves p q)

  bind-AfterRun :
      {A : Type 0} (f : A → Script W Unit) (s : Run W) (r : Settled A × Run W)
      → Progress s r.1
      → ((a : A) (t : Run W) → Progress s t → AfterRun s (f a t))
      → AfterRun s (continue f r)
  bind-AfterRun f s (value a, t) p k = k a t p
  bind-AfterRun f s (threw message, t) p k = ([], 0, inl refl, omega arith, Leaves-of_Progress p)

  with_browser-AfterRun :
      (found : Option Keys) (s t : Run W)
      → Progress s t
      → AfterRun s (with_browser o api_url to_lower_case date found t)
  unfolding ◌>>=◌ log
  with_browser-AfterRun none s t p = ([], 0, inl refl, omega arith, Leaves-of_Progress p)
  with_browser-AfterRun (some keys) s t p =
      let t' = record t { log_lines = t.log_lines ++ launching_browser ∷ [] } in
      bind-AfterRun _ s (await (o.launch) t')
        (Progress-trans (Progress-trans p ((Proceeds-log launching_browser).at t))
          ((Proceeds-await (o.launch)).at t'))
        (λ _ u q. in_browser-AfterRun s u _ q (in_browser-After keys u))

  run-AfterRun : (s : Run W) → AfterRun (begun s) (run o api_url to_lower_case date s)
  unfolding run ◌>>=◌ log
  run-AfterRun s =
      let s' = begun s in
      bind-AfterRun _ s' (fetch_credentials o api_url s')
        ((fetch_credentials-Proceeds o api_url).at s')
        (λ creds t p. with_browser-AfterRun (keys_of creds) s' t p)

  handle-Leaves :
      (s : Run W) (r : Settled Unit × Run W) (a : List Post) (n : ℕ)
      → Leaves s r.1 a n
      → Leaves s (handle (λ _. pure tt) r).1 a n
  handle-Leaves s (value _, t) a n p = p
  handle-Leaves s (threw message, t) a n p = p

  exit_of-Ended :
      (s : Run W) (r : Settled Unit × Run W)
      → AfterRun s r
      → Ended s r
          (exit_of o api_url to_lower_case date r).0
          (exit_of o api_url to_lower_case date r).1
  unfolding report_failure ◌>>=◌ log catch
  exit_of-Ended s (value tt, t) p = inl (refl, refl, p)
  exit_of-Ended s (threw message, t) (sent, n, i, h, p) =
      let t' = record t { log_lines = t.log_lines ++ error_line message ∷ [] } in
      let images = map (λ (x : Screenshot). x.base64) t.screenshots in
      let report = failure_post t'.log_lines images in
      let q =
        handle-Leaves t' (post_json o api_url report t') (report ∷ []) 0
          (post_json-Leaves o api_url report t') in
      let e : n + 0 ≡ n = omega arith in
      inr (
        refl,
        (
          sent,
          n,
          message,
          t'.log_lines,
          i,
          h,
          record { error = refl; before = p.log_lines; all = refl; after = q.log_lines },
          rw e at (Leaves-trans p (Progress-Leaves ((Proceeds-log (error_line message)).at t) q)),
        ),
      )

  -- Whatever the server, the browser and the portal do, the process ends in one of two ways. With
  -- status 0 `run` returned, and it has posted the shifts, in one post and nothing else, and closed
  -- the browser once. With status 1 `run` threw, and the last post is the failure report. Its log is
  -- the log that `run` left when it threw, the first line of the run included, and the error at the
  -- end, as it stands in the script's own log; its images are the screenshots taken. Before it stands
  -- at most one post of shifts, and the browser was closed at most once.
  pub main-Ended :
      (s : Run W)
      → Ended
          (begun s)
          (run o api_url to_lower_case date s)
          (main o api_url to_lower_case date s).0
          (main o api_url to_lower_case date s).1
  unfolding main
  main-Ended s = exit_of-Ended (begun s) (run o api_url to_lower_case date s) (run-AfterRun s)
