-- ===== src/CredentialsForm.antt =====
-- web/src/components/StarbucksCredentialsForm.tsx: the fields, the list of security questions and
-- the submission. React renders between two events, so a handler sees the last state.
pub mod Questions
pub mod Submission
pub mod View
mod Tests
use starbies_schedule_sync.Base.{
  ℕ, zero, suc, String, Bool, true, false, Option, none, some, List, [], ◌∷◌, ◌++◌, ◌==◌, ltb,
  if◌then◌else◌, or_else, length,
}
use starbies_schedule_sync.Browser.{Browser, Result, Async}
use starbies_schedule_sync.Api.Types.{SecurityQuestion, CredentialsFormData}

pub record Defaults : Type 0 where
  pub username : Option String
  pub password : Option String
  pub security_questions : Option (List SecurityQuestion)

pub record Form : Type 0 where
  pub username : String
  pub password : String
  pub questions : List SecurityQuestion
  pub submitting : Bool

abbrev pub blank : SecurityQuestion
blank = record { question = ""; answer = "" }

abbrev pub no_defaults : Defaults
no_defaults = record { username = none; password = none; security_questions = none }

unfoldable pub mount : Defaults → Form
mount d = record {
  username = or_else d.username "";
  password = or_else d.password "";
  questions = or_else d.security_questions (blank ∷ []);
  submitting = false;
}

-- `keyof SecurityQuestion`
pub data Field : Type 0 where
  question answer : Field

-- `{ ...q, [field]: value }`
abbrev pub with_field : Field → String → SecurityQuestion → SecurityQuestion
with_field question value q = record q { question = value }
with_field answer value q = record q { answer = value }

-- `prev.map((q, j) => j === i ? { ...q, [field]: value } : q)`, from the index `j` on
unfoldable pub update_from : ℕ → ℕ → Field → String → List SecurityQuestion → List SecurityQuestion
update_from j i field value [] = []
update_from j i field value (q ∷ qs) =
    (if j == i then with_field field value q else q) ∷ update_from (suc j) i field value qs

-- `p.filter((_, j) => j !== i)`, from the index `j` on
unfoldable pub filter_from : ℕ → ℕ → List SecurityQuestion → List SecurityQuestion
filter_from j i [] = []
filter_from j i (q ∷ qs) = let rest = filter_from (suc j) i qs in if j == i then rest else q ∷ rest

pub data Event : Type 0 where
  type_username type_password : String → Event
  type_question : (i : ℕ) → Field → String → Event
  remove : (i : ℕ) → Event
  add : Event

unfoldable pub update_question : ℕ → Field → String → Form → Form
unfolding update_from
update_question i field value f = record f { questions = update_from 0 i field value f.questions }

-- Whether the button "✕" is there for each question.
abbrev pub can_remove : Form → Bool
can_remove f = ltb 1 (length f.questions)

-- An event of the rendered form; a button that is not there cannot be pressed.
unfoldable pub handle : Form → Event → Form
unfolding update_question filter_from
handle f (type_username value) = record f { username = value }
handle f (type_password value) = record f { password = value }
handle f (type_question i field value) = update_question i field value f
handle f (remove i) =
    if can_remove f then (record f { questions = filter_from 0 i f.questions }) else f
handle f add = record f { questions = f.questions ++ blank ∷ [] }

unfoldable pub run : Form → List Event → Form
run f [] = f
run f (e ∷ es) = run (handle f e) es

abbrev pub form_data : Form → CredentialsFormData
form_data f = record {
  username = f.username;
  password = f.password;
  security_questions = f.questions;
}

-- `handleSubmit` up to its `await`, with what it hands to `onSubmit`; none while the button of the
-- form is disabled.
unfoldable pub start_submit : Form → Option (CredentialsFormData × Form)
start_submit f = if f.submitting then none else some (form_data f, record f { submitting = true })

-- The `finally` block, whichever way the promise of `onSubmit` settles.
unfoldable pub end_submit {ℓ} : {A : Type ℓ} → Result A → Form → Form
end_submit result f = record f { submitting = false }
