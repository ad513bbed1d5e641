-- ===== src/Api/Types.antt =====
-- The interfaces that web/src/lib/api.ts declares. Identifiers, times and texts are strings; a
-- nullable field is an `Option`; counts are natural numbers.
use starbies_schedule_sync.Base.{ℕ, String, Bool, Option, List}

pub record User : Type 0 where
  pub id : String
  pub email : String
  pub is_admin : Bool
  pub timezone : String
  pub created_at : String

pub record Shift : Type 0 where
  pub id : String
  pub job_name : String
  pub location : String
  pub start_time : String
  pub end_time : String
  -- a decimal number of hours, shown as it comes
  pub net_hours : String

pub record ScheduleResponse : Type 0 where
  pub shifts : List Shift
  pub last_scraped_at : Option String
  pub next_scrape_at : Option String

pub data RunStatus : Type 0 where
  running success failure : RunStatus

pub record ScrapeLog : Type 0 where
  pub id : String
  pub user_id : String
  pub email : Option String
  pub started_at : String
  pub finished_at : Option String
  pub status : RunStatus
  pub shifts_found : Option ℕ
  pub shifts_new : Option ℕ
  pub error_message : Option String
  pub log_output : Option String
  pub failure_screenshots : Option String

pub record ScrapeStatus : Type 0 where
  pub status : Option RunStatus
  pub started_at : Option String
  pub finished_at : Option String
  pub error_message : Option String
  pub shifts_found : Option ℕ
  pub failure_screenshots : Option (List String)
  pub log_output : Option (List String)

pub record OnboardingStatus : Type 0 where
  pub has_credentials : Bool
  pub has_successful_scrape : Bool

pub record SecurityQuestion : Type 0 where
  pub question : String
  pub answer : String

pub record CredentialsFormData : Type 0 where
  pub username : String
  pub password : String
  pub security_questions : List SecurityQuestion

pub record Config : Type 0 where
  pub dev_mode : Bool
  pub commit_sha : String
  pub commit_url : String

pub record AdminUser : Type 0 where
  pub id : String
  pub email : String
  pub shift_count : ℕ
  pub last_status : Option String
