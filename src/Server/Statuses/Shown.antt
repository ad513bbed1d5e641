-- ===== src/Server/Statuses/Shown.antt =====
-- Which scrapes are shown to a user.
use starbies_schedule_sync.Base.{
  ℕ, ◌≡◌, ◌↔◌, refl, String, Option, none, List, map, take, Has, eq_iff,
}
use starbies_schedule_sync.Server.Tables.Order.{
  IsDescending, newest, newest-Has, newest-IsDescending, select_all, select_all-Has,
}
use starbies_schedule_sync.Server.Scrapes.{ScrapeLog}
use starbies_schedule_sync.Server.Statuses.{
  document_or_empty, first, is_of, log_row, logs_of, scrape_status, started, user_scrape_logs,
}

-- Of the user's scrapes, and of no one else's, in the order from the newest to the oldest, the status
-- shows the first, or nothing where there is none, and the list of the logs the first five.
pub scrape_status_lem :
    (format_time : ℕ → String) (marshal : List String → String)
    (unmarshal : String → Option (List String)) (user_id : String) (logs : List ScrapeLog)
    → (mine : List ScrapeLog) × ((l : ScrapeLog)
        → Has l mine ↔ (Has l logs × (l.user_id ≡ user_id)))
      × IsDescending started mine
      × (scrape_status format_time marshal unmarshal user_id logs
          ≡ document_or_empty format_time marshal unmarshal (first mine))
      × (user_scrape_logs format_time marshal unmarshal user_id logs
          ≡ map (log_row format_time marshal unmarshal none) (take 5 mine))
unfolding scrape_status user_scrape_logs logs_of
scrape_status_lem format_time marshal unmarshal user_id logs =
    let selected = select_all (is_of user_id) logs in
    (
      newest started selected,
      λ l.
          let (to, from) = newest-Has started l selected in
          let (to', from') = select_all-Has (is_of user_id) logs l in
          (
            λ h. let (k, mine) = to' (to h) in (k, (eq_iff l.user_id user_id).0 mine),
            λ (k, mine). from (from' (k, (eq_iff l.user_id user_id).1 mine)),
          ),
      newest-IsDescending started selected,
      refl,
      refl,
    )
