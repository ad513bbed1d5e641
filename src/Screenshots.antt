-- ===== src/Screenshots.antt =====
-- web/src/components/ScreenshotTimeline.tsx: the index into a list of screenshots. The initial
-- index of an empty list is -1, so it is an integer.
pub mod Range
mod Tests
use Prim.Native.String.{◌++◌}
use text.Mathlib.Text.{starts_with}
use starbies_schedule_sync.Base.{
  ℕ, suc, ◌-◌, ◌+◌, String, Bool, true, false, not, Option, none, some, List, [], ◌∷◌, ltb, ◌==◌,
  if◌then◌else◌, length, get_elem?,
}
use starbies_schedule_sync.Base.Int.{ℤ, pos, negsuc, sub_ℕ}

pub record Timeline : Type 0 where
  pub screenshots : List String
  pub index : ℤ

abbrev pub last_index : List String → ℤ
last_index screenshots = sub_ℕ (length screenshots) 1

unfoldable pub mount : List String → Timeline
mount screenshots = record { screenshots = screenshots; index = last_index screenshots }

-- `screenshots[index]`, where `none` is `undefined`
abbrev pub at : List String → ℤ → Option String
at screenshots (pos i) = get_elem? screenshots i
at screenshots (negsuc _) = none

abbrev pub is_pos : ℤ → ℕ → Bool
is_pos (pos i) k = i == k
is_pos (negsuc _) k = false

-- The buttons and the slider under the picture, which are there for two screenshots or more.
pub record Controls : Type 0 where
  pub previous_disabled : Bool
  pub next_disabled : Bool

-- What a rendering gives: null, the exception of `undefined.startsWith`, or the picture.
pub data Frame : Type 0 where
  nothing : Frame
  type_error : Frame
  picture : (data_uri : String) → Option Controls → Frame

abbrev data_uri : String → String
data_uri src = if starts_with src "data:" then src else "data:image/png;base64," ++ src

abbrev pub controls : Timeline → Controls
controls t = record {
  previous_disabled = is_pos t.index 0;
  next_disabled = is_pos t.index (length t.screenshots - 1);
}

show : Option String → Timeline → Frame
show none t = type_error
show (some src) t =
    picture (data_uri src) (if ltb 1 (length t.screenshots) then some (controls t) else none)

unfoldable pub render : Timeline → Frame
unfolding show
render t =
    let shown = show (at t.screenshots t.index) t in
    if length t.screenshots == 0 then nothing else shown

pub data Event : Type 0 where
  previous next : Event
  slide : ℕ → Event

abbrev pub down : ℤ → ℤ
down (pos i) = sub_ℕ i 1
down (negsuc i) = negsuc (suc i)

abbrev pub up : ℤ → ℤ
up (pos i) = pos (i + 1)
up (negsuc i) = sub_ℕ 0 i

press : Timeline → Event → Timeline
press t previous = if is_pos t.index 0 then t else (record t { index = down t.index })
press t next =
    if is_pos t.index (length t.screenshots - 1) then t else (record t { index = up t.index })
press t (slide n) = if ltb n (length t.screenshots) then (record t { index = pos n }) else t

-- An event of the controls, if they are there: a disabled button does nothing, and the slider gives
-- values between its `min` 0 and its `max` only.
unfoldable pub handle : Timeline → Event → Timeline
unfolding press
handle t e = if ltb 1 (length t.screenshots) then press t e else t

unfoldable pub run : Timeline → List Event → Timeline
run t [] = t
run t (e ∷ es) = run (handle t e) es

abbrev is_type_error : Frame → Bool
is_type_error type_error = true
is_type_error _ = false

-- New screenshots from the parent: they are rendered once at the old index, and only then the
-- effect sets the index. `none` if that rendering throws.
unfoldable pub change : List String → Timeline → Option Timeline
unfolding render
change screenshots t =
    if is_type_error (render (record t { screenshots = screenshots }))
    then none
    else some (record { screenshots = screenshots; index = last_index screenshots })
