-- ===== src/ScrapeLogs/Details.antt =====
-- The button of a row against the details behind it, and the set of open rows.
use starbies_schedule_sync.Base.{
  String, ◌≡◌, refl, true, false, not, Option, none, some, [], arith, eq_iff, if◌then◌else◌, str_eq,
}
use mathlib.Core.Path.{fun_ext}
use starbies_schedule_sync.Api.Types.{ScrapeLog}
use starbies_schedule_sync.ScrapeLogs.{
  Parsed, array, non_empty, holds_items, LogDetails, scrape_log_details, try_parse_json,
  has_details, IdSet, toggle_expand, toggle_of, show_details, hide_details,
}

no_items :
    (parse : String → Parsed) (o : Option String)
    → parse "[]" ≡ array []
    → holds_items o ≡ false
    → non_empty (try_parse_json parse o) ≡ none
unfolding try_parse_json
no_items parse none h e = refl
no_items parse (some s) h e = ground (arith, eq_iff s "", eq_iff s "[]")

-- A row has its button whenever it has details to show. What is used of the parser: "[]" is the
-- empty array.
pub scrape_log_details-has_details :
    (parse : String → Parsed) (log : ScrapeLog) (d : LogDetails)
    → parse "[]" ≡ array []
    → scrape_log_details parse log ≡ some d
    → has_details log ≡ true
unfolding scrape_log_details has_details
scrape_log_details-has_details parse log d h e =
    ground (arith, no_items parse log.log_output h, no_items parse log.failure_screenshots h)

-- The button opens nothing for a log whose texts are no arrays with an item.
pub toggle_of_empty :
    (parse : String → Parsed) (log : ScrapeLog)
    → has_details log ≡ true
    → scrape_log_details parse log ≡ none
    → (toggle_of parse (λ _. false) log ≡ show_details)
      × (toggle_of parse (toggle_expand log.id (λ _. false)) log ≡ hide_details none)
unfolding toggle_of toggle_expand
toggle_of_empty parse log h e = ground (arith, eq_iff log.id log.id)

-- Toggling a row changes whether that row is open, and no other; twice is as before.
pub toggle_expand_lem :
    (id j : String) (set : IdSet)
    → (toggle_expand id set j ≡ (if str_eq id j then not (set j) else set j))
      × (toggle_expand id (toggle_expand id set) ≡ set)
unfolding toggle_expand
toggle_expand_lem id j set =
    (ground (arith, eq_iff id j), fun_ext (λ k. ground (arith, eq_iff id k, eq_iff id id)))
