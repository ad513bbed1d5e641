-- ===== src/CredentialsForm/View.antt =====
-- What web/src/components/StarbucksCredentialsForm.tsx renders.
use mathlib.Core.Option
use starbies_schedule_sync.Base.{
  ℕ, zero, suc, String, ◌≡◌, refl, Bool, true, false, Option, none, some, List, [], ◌∷◌, arith,
  get_elem?, map, or_else, if◌then◌else◌,
}
use starbies_schedule_sync.Browser.Widgets.{Button, shown}
use starbies_schedule_sync.Api.Types.{SecurityQuestion}
use starbies_schedule_sync.CredentialsForm.{Form, can_remove, handle, remove, start_submit}

-- A question with whether the button "✕" stands beside it.
pub record Row : Type 0 where
  pub question : String
  pub answer : String
  pub removable : Bool

pub record View : Type 0 where
  pub username : String
  pub password : String
  pub rows : List Row
  pub error : Option String
  pub submit : Button

abbrev pub row_of : Bool → SecurityQuestion → Row
row_of removable q = record { question = q.question; answer = q.answer; removable = removable }

abbrev pub error_of : Option String → Option String
error_of none = none
error_of (some text) = shown text

-- The labels and the error are the component's props.
unfoldable pub render : String → Option String → Option String → Form → View
render submit_label submitting_label error f = record {
  username = f.username;
  password = f.password;
  rows = map (row_of (can_remove f)) f.questions;
  error = error_of error;
  submit = record {
    label = if f.submitting then or_else submitting_label "Saving..." else submit_label;
    disabled = f.submitting;
  };
}

get_elem?-map :
    (removable : Bool) (qs : List SecurityQuestion) (k : ℕ)
    → get_elem? (map (row_of removable) qs) k ≡ Option.map (row_of removable) (get_elem? qs k)
get_elem?-map removable [] k = refl
get_elem?-map removable (q ∷ qs) zero = refl
get_elem?-map removable (q ∷ qs) (suc k) = get_elem?-map removable qs k

-- Each row shows the question at its index, with "✕" exactly if there are two or more, and the
-- button submits exactly while it is not disabled.
pub render_lem :
    (submit_label : String) (submitting_label error : Option String) (f : Form) (k : ℕ)
    → let view = render submit_label submitting_label error f in
      (get_elem? view.rows k ≡ Option.map (row_of (can_remove f)) (get_elem? f.questions k))
      × (can_remove f ≡ false → handle f (remove k) ≡ f)
      × (view.submit.disabled ≡ true → start_submit f ≡ none)
unfolding render handle start_submit
render_lem submit_label submitting_label error f k =
    (get_elem?-map (can_remove f) f.questions k, ground arith, ground arith)
