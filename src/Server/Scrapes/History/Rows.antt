-- ===== src/Server/Scrapes/History/Rows.antt =====
-- What the changes of the rows keep: a property that no statement undoes, and that keys are unique.
use mathlib.Core.Path.{subst}
use starbies_schedule_sync.Base.{
  String, ◌≡◌, refl, sym, Bool, false, none, [], ◌∷◌, ◌++◌, if◌then◌else◌, if_either, All, arith,
  eq_iff,
}
use starbies_schedule_sync.Server.Scrapes.{ScrapeLog, has_key}
use starbies_schedule_sync.Server.Tables.{
  select, update, delete, update-All, delete-All, append-All,
}
use starbies_schedule_sync.Server.Scrapes.History.Keys.{
  Follows, Logs, Moves, stay, updated, deleted, appended,
}

module _ (P : ScrapeLog → Type 0) where
  -- A property that no statement undoes, and that rows with new keys have, stays.
  pub Moves-All :
      (Allowed : String → Type 0) (ls ms : Logs)
      → ((l l' : ScrapeLog) → Follows l l' → P l → P l')
      → ((l : ScrapeLog) → Allowed l.scrape_key → P l)
      → All P ls
      → Moves Allowed ls ms
      → All P ms
  Moves-All Allowed ls ms k new a stay = a
  Moves-All Allowed ls ms k new a (updated test f follows m) =
      update-All P test f _ (λ l. k l (f l) (follows l)) (Moves-All Allowed ls _ k new a m)
  Moves-All Allowed ls ms k new a (deleted test m) =
      delete-All P test _ (Moves-All Allowed ls _ k new a m)
  Moves-All Allowed ls ms k new a (appended l fresh free m) =
      append-All P _ l (Moves-All Allowed ls _ k new a m) (new l fresh)

abbrev pub Lacks : String → ScrapeLog → Type 0
Lacks key l = has_key key l ≡ false

-- No two rows have one key.
abbrev pub IsUnique : Logs → Type 0
IsUnique [] = Unit
IsUnique (l ∷ ls) = All (Lacks l.scrape_key) ls × IsUnique ls

select-Lacks : (key : String) (ls : Logs) → select (has_key key) ls ≡ none → All (Lacks key) ls
unfolding select
select-Lacks key [] h = tt
select-Lacks key (l ∷ ls) h = (ground arith, select-Lacks key ls (ground arith))

update-IsUnique :
    (test : ScrapeLog → Bool) (f : ScrapeLog → ScrapeLog) (ls : Logs)
    → ((l : ScrapeLog) → Follows l (f l))
    → IsUnique ls
    → IsUnique (update test f ls)
unfolding update
update-IsUnique test f [] k u = tt
update-IsUnique test f (l ∷ ls) k u =
    let same : (if test l then f l else l).scrape_key ≡ l.scrape_key =
      if_either (λ (x : ScrapeLog). x.scrape_key ≡ l.scrape_key) (test l) ((k l).same_key) refl in
    (
      subst (λ key. All (Lacks key) (update test f ls)) (sym same)
          (update-All (Lacks l.scrape_key) test f ls (λ x h. rw ((k x).same_key) h) (u.0)),
      update-IsUnique test f ls k (u.1),
    )

delete-IsUnique : (test : ScrapeLog → Bool) (ls : Logs) → IsUnique ls → IsUnique (delete test ls)
unfolding delete
delete-IsUnique test [] u = tt
delete-IsUnique test (l ∷ ls) u =
    if_either IsUnique (test l) (delete-IsUnique test ls (u.1))
      (delete-All (Lacks l.scrape_key) test ls (u.0), delete-IsUnique test ls (u.1))

append-IsUnique :
    (ls : Logs) (l : ScrapeLog)
    → IsUnique ls
    → All (Lacks l.scrape_key) ls
    → IsUnique (ls ++ l ∷ [])
append-IsUnique [] l u a = (tt, tt)
append-IsUnique (x ∷ ls) l u a = (
  append-All (Lacks x.scrape_key) ls l (u.0)
      (ground (arith, eq_iff x.scrape_key l.scrape_key, eq_iff l.scrape_key x.scrape_key)),
  append-IsUnique ls l (u.1) (a.1),
)

pub Moves-IsUnique :
    (Allowed : String → Type 0) (ls ms : Logs) → IsUnique ls → Moves Allowed ls ms → IsUnique ms
Moves-IsUnique Allowed ls ms u stay = u
Moves-IsUnique Allowed ls ms u (updated test f follows m) =
    update-IsUnique test f _ follows (Moves-IsUnique Allowed ls _ u m)
Moves-IsUnique Allowed ls ms u (deleted test m) =
    delete-IsUnique test _ (Moves-IsUnique Allowed ls _ u m)
Moves-IsUnique Allowed ls ms u (appended l fresh free m) =
    append-IsUnique _ l (Moves-IsUnique Allowed ls _ u m) (select-Lacks l.scrape_key _ free)
