-- ===== src/Server/Scrapes/Callbacks/Storing.antt =====
-- What the table of shifts holds after a submission.
use starbies_schedule_sync.Base.{
  ℕ, ◌+◌, ◌≡◌, ◌⊎◌, String, Bool, true, Option, none, some, List, ◌++◌, length, is_some,
}
use starbies_schedule_sync.Base.Int.{ℤ}
use starbies_schedule_sync.Scraper.Schedule.{Shift}
use starbies_schedule_sync.Server.Scrapes.{ShiftRow}
use starbies_schedule_sync.Server.Tables.{select}
use starbies_schedule_sync.Server.Scrapes.Callbacks.{is_shift, row_of, store_row, store_shifts}

abbrev pub Holds : String → String → List ShiftRow → Type 0
Holds user_id ext rows = is_some (select (is_shift user_id ext) rows) ≡ true

module _ (timezone : String → Option String) (is_location : String → Bool)
    (parse_in_location : (format text location : String) → Option ℤ) where
  abbrev pub the_row : ℕ → String → Shift → Option ShiftRow
  the_row now user sh = row_of timezone is_location parse_in_location now user sh

  abbrev pub store : ℕ → String → List Shift → ℕ × List ShiftRow → ℕ × List ShiftRow
  store now user shs t = store_shifts timezone is_location parse_in_location now user shs t

  abbrev put_row : Option ShiftRow → ℕ × List ShiftRow → ℕ × List ShiftRow
  put_row r t = store_row timezone is_location parse_in_location r t

  -- The shift is in the table, or its times never parse.
  abbrev pub Known : String → List ShiftRow → Shift → Type 0
  Known user rows sh = Holds user sh.shift_id_ext rows ⊎ ((now : ℕ) → the_row now user sh ≡ none)

  abbrev IsRow : String → Shift → (ℕ → Option ShiftRow) → Type 0
  IsRow user sh row =
      ((now : ℕ) → row now ≡ none)
      ⊎ ((now : ℕ)
          → (r : ShiftRow) × (row now ≡ some r)
            × (r.user_id ≡ user)
            × (r.shift_id_ext ≡ sh.shift_id_ext))

  -- Rows stand behind those that were there, as many as are counted.
  abbrev pub Adds : ℕ × List ShiftRow → ℕ × List ShiftRow → Type 0
  Adds t t' = (more : List ShiftRow) × (t'.1 ≡ t.1 ++ more) × (t'.0 ≡ t.0 + length more)
