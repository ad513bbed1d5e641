-- ===== src/IcsSubscribeLink.antt =====
-- web/src/components/IcsSubscribeLink.tsx: the button that copies the link of the calendar feed.
-- Timers fire in the order in which they were started, all after 2000 ms.
use starbies_schedule_sync.Base.{
  ℕ, ◌+◌, ◌≤◌, String, ◌≡◌, ap, Bool, true, false, Option, none, some, List, [], ◌∷◌, ◌++◌, arith,
  length, length-append, if◌then◌else◌, str_eq,
}

pub record Link : Type 0 where
  pub copied : Bool
  -- the timers under way, by the time at which they are due
  pub timers : List ℕ

abbrev pub mounted : Link
mounted = record { copied = false; timers = [] }

-- What the component renders to: nothing without a link, else the link and the button's label.
pub data View : Type 0 where
  nothing : View
  link : (url : String) → (label : String) → View

unfoldable pub render : Option String → Link → View
render none s = nothing
render (some url) s =
    if str_eq url "" then nothing else link url (if s.copied then "Copied!" else "Copy")

-- The clipboard took the text; and the first timer is due.
unfoldable pub on_copied : ℕ → Link → Link
on_copied now s = record { copied = true; timers = s.timers ++ (now + 2000) ∷ [] }

fire : List ℕ → Link → Link
fire [] s = s
fire (due ∷ rest) s = record { copied = false; timers = rest }

unfoldable pub on_timer : Link → Link
unfolding fire
on_timer s = fire s.timers s

pub data Event : Type 0 where
  copy : (now : ℕ) → Event
  timer : Event

unfoldable pub run : Link → List Event → Link
unfolding on_copied on_timer
run s [] = s
run s (copy now ∷ es) = run (on_copied now s) es
run s (timer ∷ es) = run (on_timer s) es

-- The label "Copied!" is never stuck: a timer that resets it is under way.
abbrev WillReset : Link → Type 0
WillReset s = s.copied ≡ true → 1 ≤ length s.timers

run-WillReset : (s : Link) (es : List Event) → WillReset s → WillReset (run s es)
unfolding run
run-WillReset s [] h = h
run-WillReset s (copy now ∷ es) h =
    run-WillReset (on_copied now s) es
      (λ _. omega (arith, length-append s.timers ((now + 2000) ∷ [])))
run-WillReset s (timer ∷ es) h =
    run-WillReset (on_timer s) es (unfold on_timer fire in ground arith)

-- However often the link is copied, the label "Copied!" is only shown while a timer that resets it
-- is under way, so it is not shown once all timers have fired.
pub run-mounted :
    (es : List Event)
    → let s = run mounted es in
      (s.copied ≡ true → 1 ≤ length s.timers) × (s.timers ≡ [] → s.copied ≡ false)
run-mounted es = let h = run-WillReset mounted es (λ e. cc) in (h, λ e. ground (arith, ap length e))
