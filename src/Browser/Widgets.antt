-- ===== src/Browser/Widgets.antt =====
-- What the pages render with: a button, and a text that is only there when it is not empty.
use starbies_schedule_sync.Base.{String, Bool, Option, none, some, if◌then◌else◌, str_eq}

pub record Button : Type 0 where
  pub label : String
  pub disabled : Bool

-- `text && …` in a rendering.
abbrev pub shown : String → Option String
shown text = if str_eq text "" then none else some text
