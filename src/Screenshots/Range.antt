-- ===== src/Screenshots/Range.antt =====
-- The index stays inside the list, as long as the list stays.
use starbies_schedule_sync.Base.{
  ℕ, suc, ◌<◌, ◌≤◌, ◌≡◌, ◌≢◌, ◌↔◌, refl, ◌∙◌, String, none, List, [], ◌∷◌, arith, length,
  get_elem?-in_range, get_elem?-past, some,
}
use native.Mathlib.Decide.{dec_lt}
use starbies_schedule_sync.Base.Int.{ℤ, pos, negsuc}
use starbies_schedule_sync.Screenshots.{
  Timeline, mount, render, type_error, nothing, Event, previous, next, slide, handle, run, change,
}

-- The index of one of the screenshots.
abbrev pub InRange : List String → ℤ → Type 0
InRange screenshots (pos i) = i < length screenshots
InRange screenshots (negsuc _) = ⊥

handle-InRange :
    (t : Timeline) (e : Event)
    → InRange t.screenshots t.index
    → InRange (handle t e).screenshots (handle t e).index
unfolding handle
handle-InRange t previous h = ground arith
handle-InRange t next h = ground arith
handle-InRange t (slide n) h = ground arith

handle-screenshots : (t : Timeline) (e : Event) → (handle t e).screenshots ≡ t.screenshots
unfolding handle
handle-screenshots t e = ground arith

run-InRange :
    (t : Timeline) (es : List Event)
    → InRange t.screenshots t.index
    → InRange (run t es).screenshots (run t es).index × ((run t es).screenshots ≡ t.screenshots)
unfolding run
run-InRange t [] h = (h, refl)
run-InRange t (e ∷ es) h =
    let (inside, same) = run-InRange (handle t e) es (handle-InRange t e h) in
    (inside, same ∙ handle-screenshots t e)

render-InRange :
    (screenshots : List String) (index : ℤ)
    → InRange screenshots index
    → let t : Timeline = record { screenshots = screenshots; index = index } in
      (render t ≢ type_error) × (render t ≢ nothing)
unfolding render
render-InRange screenshots (pos i) h =
    let (src, found) = get_elem?-in_range screenshots i h in ground arith
render-InRange screenshots (negsuc _) h = elim h [ ]

mounted-InRange :
    (screenshots : List String)
    → screenshots ≢ []
    → InRange (mount screenshots).screenshots (mount screenshots).index
unfolding mount
mounted-InRange [] h = absurd (h refl)
mounted-InRange (s ∷ ss) h = ground arith

run-screenshots :
    (screenshots : List String) (es : List Event)
    → screenshots ≢ []
    → (run (mount screenshots) es).screenshots ≡ screenshots
unfolding mount
run-screenshots screenshots es h =
    (run-InRange (mount screenshots) es (mounted-InRange screenshots h)).1

-- Mounted with at least one screenshot, and whatever is pressed, the timeline stays at one of its
-- screenshots and shows a picture.
pub run-mount :
    (screenshots : List String) (es : List Event)
    → screenshots ≢ []
    → let t = run (mount screenshots) es in
      InRange screenshots t.index × (render t ≢ type_error) × (render t ≢ nothing)
run-mount screenshots es h =
    let t = run (mount screenshots) es in
    let inside = (run-InRange (mount screenshots) es (mounted-InRange screenshots h)).0 in
    let (shown, there) = render-InRange t.screenshots t.index inside in
    (rw (run-screenshots screenshots es h) at inside, shown, there)

-- From such a state, new screenshots make the rendering throw exactly if they are not empty and too
-- few for the old index; otherwise the timeline goes to the last one of them.
pub change-eq-none_iff :
    (screenshots : List String) (t : Timeline) (i : ℕ)
    → t.index ≡ pos i
    → ((change screenshots t ≡ none) ↔ ((0 < length screenshots) × (length screenshots ≤ i)))
      × ((u : Timeline) → change screenshots t ≡ some u → u ≡ mount screenshots)
unfolding change mount
change-eq-none_iff screenshots t i h = elim (dec_lt i (length screenshots)) [
  | yes below ↦
      let (src, found) = get_elem?-in_range screenshots i below in (ground arith, λ u. ground arith)
  | no past ↦ (
    ground (arith, get_elem?-past screenshots i),
    λ u. ground (arith, get_elem?-past screenshots i),
  )
]

-- Inside the range, the buttons undo one another.
pub handle-previous_next :
    (t : Timeline) (i : ℕ)
    → t.index ≡ pos i
    → suc i < length t.screenshots
    → (handle (handle t next) previous ≡ t) × ((handle t next).index ≡ pos (suc i))
unfolding handle
handle-previous_next t i h k = ground arith
