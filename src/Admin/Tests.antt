-- ===== src/Admin/Tests.antt =====
-- The admin page against a server that refuses it.
use starbies_schedule_sync.Base.{String, Option, none}
use starbies_schedule_sync.Base.Int.{ℤ}
use starbies_schedule_sync.ScrapeLogs.{Parsed, syntax_error}

abbrev same : String → String
same text = text

abbrev no_date : String → Option ℤ
no_date text = none

abbrev unread : String → Parsed
unread text = syntax_error
