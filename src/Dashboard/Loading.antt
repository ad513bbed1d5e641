-- ===== src/Dashboard/Loading.antt =====
-- The two requests on mount: shown together or not at all.
use starbies_schedule_sync.Base.{String, ◌≡◌, ◌↔◌, true, false, some, arith, is_some}
use starbies_schedule_sync.Browser.{Browser}
use starbies_schedule_sync.Api.Types.{ScheduleResponse}
use starbies_schedule_sync.Api.Endpoints.{Network, schedule, ics_url, api}
use starbies_schedule_sync.Api.Answers.{answer_to, api-answer}
use starbies_schedule_sync.Dashboard.{mounted, load}

-- With whatever replies, the dashboard stops loading; it shows the schedule that the server answers
-- exactly if the server answers with a link too, and the link exactly if there is a schedule.
pub load_together :
    (net : Network) (b : Browser) (sched : ScheduleResponse) (url : String)
    → let s = (load net b mounted).0 in
      (s.loading ≡ false)
      × ((s.schedule ≡ some sched)
          ↔ ((answer_to net schedule ≡ some sched) × (is_some (answer_to net ics_url) ≡ true)))
      × ((s.ics_url ≡ some url)
          ↔ ((answer_to net ics_url ≡ some url) × (is_some (answer_to net schedule) ≡ true)))
unfolding load
load_together net b sched url =
    ground (arith, api-answer net schedule b, api-answer net ics_url (api net schedule b).1)
