-- ===== src/ScrapeLogs/Rows.antt =====
-- The rows of the log list: web/src/pages/Settings.tsx, lines 147 to 179.
-- `toLocaleString` is a parameter, with `Date` and `JSON.parse`.
use starbies_schedule_sync.Base.{
  ℕ, String, ◌≡◌, ap, false, Option, none, some, List, [], ◌∷◌, arith, eq_iff, map, if◌then◌else◌,
  str_eq,
}
use starbies_schedule_sync.Base.Int.{ℤ}
use starbies_schedule_sync.Api.Types.{ScrapeLog, RunStatus, running, success, failure}
use starbies_schedule_sync.ScrapeLogs.{
  Badge, status_badge, Duration, duration, Parsed, LogDetails, scrape_log_details, IdSet,
  toggle_expand, Toggle, show_details, hide_details, toggle_of,
}

-- The strings that the type of `status` allows.
abbrev pub status_text : RunStatus → String
status_text running = "running"
status_text success = "success"
status_text failure = "failure"

-- "… shifts found, … new": a missing second number is not printed.
pub record Counts : Type 0 where
  pub shifts_found : ℕ
  pub shifts_new : Option ℕ

pub record Row : Type 0 where
  pub started_at : String
  pub duration : Duration
  pub badge : Badge
  pub counts : Option Counts
  pub error_message : Option String
  pub toggle : Toggle

abbrev pub counts_of : Option ℕ → Option ℕ → Option Counts
counts_of none shifts_new = none
counts_of (some n) shifts_new = some (record { shifts_found = n; shifts_new = shifts_new })

-- `text && …`: an empty text is not shown.
abbrev pub non_blank : Option String → Option String
non_blank none = none
non_blank (some text) = if str_eq text "" then none else some text

module _ (locale : String → String) (date : String → Option ℤ) (parse : String → Parsed) where
  unfoldable pub row : IdSet → ScrapeLog → Row
  row open_logs log = record {
    started_at = locale log.started_at;
    duration = duration date log.started_at log.finished_at;
    badge = status_badge (status_text log.status);
    counts = counts_of log.shifts_found log.shifts_new;
    error_message = non_blank log.error_message;
    toggle = toggle_of parse open_logs log;
  }

  -- The rows, or none for the text that there are none yet.
  unfoldable pub list_rows : IdSet → List ScrapeLog → Option (List Row)
  list_rows open_logs [] = none
  list_rows open_logs (log ∷ logs) = some (map (row open_logs) (log ∷ logs))

  toggle_of-toggle_expand :
      (id : String) (open_logs : IdSet) (log : ScrapeLog) (d : Option LogDetails)
      → (str_eq id log.id ≡ false
          → toggle_of parse (toggle_expand id open_logs) log ≡ toggle_of parse open_logs log)
        × (toggle_of parse open_logs log ≡ show_details
            → toggle_of parse (toggle_expand log.id open_logs) log
              ≡ hide_details (scrape_log_details parse log))
        × (toggle_of parse open_logs log ≡ hide_details d
            → toggle_of parse (toggle_expand log.id open_logs) log ≡ show_details)
  unfolding toggle_of toggle_expand
  toggle_of-toggle_expand id open_logs log d = ground (arith, eq_iff log.id log.id)

  -- Pressing the button of one row leaves every row of another log as it is; it opens a closed row
  -- with the details of its log, and closes an open one; nothing else of the row changes.
  pub row-toggle_expand :
      (id : String) (open_logs : IdSet) (log : ScrapeLog) (d : Option LogDetails)
      → let before = row open_logs log in
        (str_eq id log.id ≡ false → row (toggle_expand id open_logs) log ≡ before)
        × (before.toggle ≡ show_details
            → row (toggle_expand log.id open_logs) log
              ≡ record before { toggle = hide_details (scrape_log_details parse log) })
        × (before.toggle ≡ hide_details d
            → row (toggle_expand log.id open_logs) log ≡ record before { toggle = show_details })
  unfolding row
  row-toggle_expand id open_logs log d =
      let (other, opens, closes) = toggle_of-toggle_expand id open_logs log d in
      let with_toggle = λ (t : Toggle). record (row open_logs log) { toggle = t } in
      (λ h. ap with_toggle (other h), λ h. ap with_toggle (opens h), λ h. ap with_toggle (closes h))
