-- ===== src/AppFooter.antt =====
-- web/src/components/AppFooter.tsx: the commit that every page shows at its end.
use starbies_schedule_sync.Base.{
  String, ◌≡◌, ◌∙◌, refl, ap, Option, none, some, if◌then◌else◌, str_eq,
}
use starbies_schedule_sync.Browser.{Browser, Result, ok, err}
use starbies_schedule_sync.Api.Types.{Config}
use starbies_schedule_sync.Api.Endpoints.{Network, config, api}
use starbies_schedule_sync.Api.Answers.{answer_to, value_of, api-answer}

pub record Footer : Type 0 where
  pub sha : String
  pub url : String

abbrev pub mounted : Footer
mounted = record { sha = ""; url = "" }

-- `then` and `catch` of the effect on mount.
loaded : Result Config → Footer → Footer
loaded (ok c) s = record { sha = c.commit_sha; url = c.commit_url }
loaded (err e) s = s

unfoldable pub load : Network → Browser → Footer → Footer × Browser
unfolding loaded
load net b s = let (c, b') = api net config b in (loaded c s, b')

-- What stands behind the author's name: nothing, the commit, or the commit as a link.
pub data Commit : Type 0 where
  nothing : Commit
  plain : (sha : String) → Commit
  link : (url : String) → (sha : String) → Commit

unfoldable pub render : Footer → Commit
render s =
    if str_eq s.sha "" then nothing else if str_eq s.url "" then plain s.sha else link s.url s.sha

-- What the server's answer, or its absence, leads to.
abbrev pub footer_of : Option Config → Footer
footer_of none = mounted
footer_of (some c) = record { sha = c.commit_sha; url = c.commit_url }

loaded-value_of : (r : Result Config) → loaded r mounted ≡ footer_of (value_of r)
unfolding loaded
loaded-value_of (ok c) = refl
loaded-value_of (err e) = refl

-- After the effect the footer shows what the answer of the server, if there is one, holds.
pub load-render :
    (net : Network) (b : Browser)
    → render (load net b mounted).0 ≡ render (footer_of (answer_to net config))
unfolding load
load-render net b =
    ap render (loaded-value_of (api net config b).0 ∙ ap footer_of (api-answer net config b))
