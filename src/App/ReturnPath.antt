-- ===== src/App/ReturnPath.antt =====
-- `ReturnPathRedirect` of web/src/App.tsx, and its way together with `handleBotBarrier` of
-- web/src/lib/api.ts across the page load of "/" between them.
use Prim.Native.String.{◌++◌}
use starbies_schedule_sync.Base.{
  String, ◌≡◌, ◌≢◌, Bool, true, false, not, ◌&&◌, Option, none, some, arith, eq_iff, str_eq,
  if◌then◌else◌,
}
use starbies_schedule_sync.Browser.{Browser}
use starbies_schedule_sync.Api.Request.{handle_bot_barrier}

-- What the effect leaves: the flag `checked`, the path that it navigates to, and the browser.
pub record Effect : Type 0 where
  pub checked : Bool
  pub target : Option String
  pub browser : Browser

-- `returnPath` is null, or a text, which is false if it is empty.
go_back : Option String → Browser → Effect
go_back none b = record { checked = true; target = none; browser = b }
go_back (some path) b =
    if not (str_eq path "") && not (str_eq path "/") && not (str_eq path b.pathname)
    then (record { checked = true; target = some path; browser = record b { return_path = none } })
    else (record { checked = true; target = none; browser = b })

unfoldable pub return_path_redirect : Bool → Browser → Effect
unfolding go_back
return_path_redirect true b = record { checked = true; target = none; browser = b }
return_path_redirect false b = go_back b.return_path b

-- The page load that `window.location.href = '/'` starts: the session storage stays.
abbrev pub load_root : Browser → Browser
load_root b = record b { pathname = "/"; search = ""; href = none }

abbrev pub after_barrier : Browser → Browser
after_barrier b = load_root (handle_bot_barrier {A = Unit {0}} b).1

-- After a bot barrier and the page load that follows, the client navigates back to the path and
-- query that it was on, unless that is the root, and forgets it; the effect runs once.
pub return_path_redirect-handle_bot_barrier :
    (b : Browser)
    → b.pathname ++ b.search ≢ ""
    → b.pathname ++ b.search ≢ "/"
    → let effect = return_path_redirect false (after_barrier b) in
      (effect.target ≡ some (b.pathname ++ b.search))
      × (effect.browser.return_path ≡ none)
      × ((return_path_redirect effect.checked effect.browser).target ≡ none)
unfolding return_path_redirect handle_bot_barrier
return_path_redirect-handle_bot_barrier b h k =
    let path = b.pathname ++ b.search in ground (arith, eq_iff path "", eq_iff path "/")

-- If the page load of "/" meets the barrier again, the way back is lost, wherever the client was.
pub handle_bot_barrier_twice :
    (b : Browser) → (return_path_redirect false (after_barrier (after_barrier b))).target ≡ none
unfolding return_path_redirect handle_bot_barrier
handle_bot_barrier_twice b = ground (arith, eq_iff "/" "/")
