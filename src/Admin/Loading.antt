-- ===== src/Admin/Loading.antt =====
-- What the admin page takes over from the server.
use starbies_schedule_sync.Base.{String, ◌≡◌, true, false, some, arith, is_some, ◌&&◌}
use starbies_schedule_sync.Browser.{Browser}
use starbies_schedule_sync.Api.Endpoints.{Network, admin_logs, admin_users, trigger_scrape, api}
use starbies_schedule_sync.Api.Answers.{answer_to, value_of, api-answer}
use starbies_schedule_sync.Admin.{Admin, load, trigger}

-- A load ends the loading state; if the server answers both requests, the page shows both answers;
-- otherwise both lists stay as they were, and the promise is rejected with nobody to handle it.
pub load_answers :
    (net : Network) (b : Browser) (s : Admin)
    → let h = load net b s in
      (h.page.loading ≡ false)
      × (is_some (value_of h.outcome)
          ≡ (is_some (answer_to net admin_logs) && is_some (answer_to net admin_users)))
      × (is_some (value_of h.outcome) ≡ true
          → (some h.page.logs ≡ answer_to net admin_logs)
            × (some h.page.users ≡ answer_to net admin_users))
      × (is_some (value_of h.outcome) ≡ false → (h.page.logs ≡ s.logs) × (h.page.users ≡ s.users))
unfolding load
load_answers net b s =
    ground (arith, api-answer net admin_logs b, api-answer net admin_users (api net admin_logs b).1)

-- The page is loaded anew after a scrape was started exactly if the server answers.
pub trigger_lem :
    (net : Network) (b : Browser) (user_id : String) (s : Admin)
    → let h = trigger net b user_id s in
      (h.reload ≡ is_some (answer_to net (trigger_scrape user_id))) × (h.page ≡ s)
unfolding trigger
trigger_lem net b user_id s = ground (arith, api-answer net (trigger_scrape user_id) b)
