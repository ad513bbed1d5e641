-- ===== src/CredentialsForm/Questions.antt =====
-- The list of security questions: what an edit and a removal do at each index.
use starbies_schedule_sync.Base.{
  ℕ, zero, suc, ◌+◌, ◌≤◌, ◌<◌, String, ◌≡◌, refl, ap, List, [], ◌∷◌, arith, length, length-append,
  get_elem?, ltb, ◌==◌, if◌then◌else◌,
}
use mathlib.Core.Option
use starbies_schedule_sync.Api.Types.{SecurityQuestion}
use starbies_schedule_sync.CredentialsForm.{
  Form, Field, with_field, update_from, filter_from, Event, type_question, remove, add, blank,
  update_question, handle, run,
}

update_from-get_elem? :
    (qs : List SecurityQuestion) (j i k : ℕ) (field : Field) (value : String)
    → get_elem? (update_from j i field value qs) k ≡ (
        if j + k == i then Option.map (with_field field value) (get_elem? qs k) else get_elem? qs k)
unfolding update_from
update_from-get_elem? [] j i k field value = ground arith
update_from-get_elem? (q ∷ qs) j i zero field value = ground arith
update_from-get_elem? (q ∷ qs) j i (suc k) field value =
    ground (arith, update_from-get_elem? qs (suc j) i k field value)

length-update_from :
    (qs : List SecurityQuestion) (j i : ℕ) (field : Field) (value : String)
    → length (update_from j i field value qs) ≡ length qs
unfolding update_from
length-update_from [] j i field value = refl
length-update_from (q ∷ qs) j i field value = ap suc (length-update_from qs (suc j) i field value)

-- Typing into a question changes the one field of the one question at that index, and keeps the
-- others, their number and the other fields of the form.
pub update_question_lem :
    (f : Form) (i k : ℕ) (field : Field) (value : String)
    → let g = update_question i field value f in
      (get_elem? g.questions k ≡ (
        if k == i
        then Option.map (with_field field value) (get_elem? f.questions k)
        else get_elem? f.questions k))
      × (length g.questions ≡ length f.questions)
      × (g.username ≡ f.username)
      × (g.password ≡ f.password)
unfolding update_question
update_question_lem f i k field value = (
  ground (arith, update_from-get_elem? f.questions 0 i k field value),
  length-update_from f.questions 0 i field value,
  refl,
  refl,
)

filter_from_past : (qs : List SecurityQuestion) (j i : ℕ) → i < j → filter_from j i qs ≡ qs
unfolding filter_from
filter_from_past [] j i h = refl
filter_from_past (q ∷ qs) j i h = ground (arith, filter_from_past qs (suc j) i)

filter_from-get_elem? :
    (qs : List SecurityQuestion) (j i k : ℕ)
    → j ≤ i
    → get_elem? (filter_from j i qs) k
      ≡ (if ltb (j + k) i then get_elem? qs k else get_elem? qs (suc k))
unfolding filter_from
filter_from-get_elem? [] j i k h = ground arith
filter_from-get_elem? (q ∷ qs) j i zero h =
    ground (arith, filter_from_past qs (suc j) i, filter_from-get_elem? qs (suc j) i 0)
filter_from-get_elem? (q ∷ qs) j i (suc k) h =
    ground (arith, filter_from_past qs (suc j) i, filter_from-get_elem? qs (suc j) i k)

length-filter_from :
    (qs : List SecurityQuestion) (j i : ℕ)
    → j ≤ i
    → i < j + length qs
    → length (filter_from j i qs) + 1 ≡ length qs
unfolding filter_from
length-filter_from [] j i h k = absurd (omega arith)
length-filter_from (q ∷ qs) j i h k =
    ground (arith, filter_from_past qs (suc j) i, length-filter_from qs (suc j) i)

-- Pressing "✕" at a question that is not the only one removes that question alone: those before it
-- keep their index, those behind it move up by one.
pub handle-remove :
    (f : Form) (i k : ℕ)
    → i < length f.questions
    → 1 < length f.questions
    → let g = handle f (remove i) in
      (get_elem? g.questions k
        ≡ (if ltb k i then get_elem? f.questions k else get_elem? f.questions (suc k)))
      × (length g.questions + 1 ≡ length f.questions)
unfolding handle
handle-remove f i k h more =
    ground (arith, filter_from-get_elem? f.questions 0 i k, length-filter_from f.questions 0 i)

length-filter_from_le :
    (qs : List SecurityQuestion) (j i : ℕ) → length qs ≤ length (filter_from j i qs) + 1
unfolding filter_from
length-filter_from_le [] j i = omega arith
length-filter_from_le (q ∷ qs) j i =
    ground (arith, filter_from_past qs (suc j) i, length-filter_from_le qs (suc j) i)

handle_keeps_one :
    (f : Form) (e : Event) → 0 < length f.questions → 0 < length (handle f e).questions
unfolding handle
handle_keeps_one f (type_question i field value) h =
    omega (arith, length-update_from f.questions 0 i field value)
handle_keeps_one f (remove i) h = ground (arith, length-filter_from_le f.questions 0 i)
handle_keeps_one f add h = omega (arith, length-append f.questions (blank ∷ []))
handle_keeps_one f _ h = h

-- Whatever the user types, adds and removes, at least one security question is left.
pub run_keeps_one :
    (f : Form) (es : List Event) → 0 < length f.questions → 0 < length (run f es).questions
unfolding run
run_keeps_one f [] h = h
run_keeps_one f (e ∷ es) h = run_keeps_one (handle f e) es (handle_keeps_one f e h)
