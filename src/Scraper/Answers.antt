-- ===== src/Scraper/Answers.antt =====
-- `findSecurityAnswer` of scraper/scrape.js. `toLowerCase` is a parameter.
use starbies_schedule_sync.Base.{
  ◌≡◌, ◌⊎◌, inl, inr, refl, String, Bool, true, false, not, ◌&&◌, Option, none, some, List, [], ◌∷◌,
  Bool-cases, All, if◌then◌else◌, str_eq,
}
use starbies_schedule_sync.Api.Request.{includes}
use starbies_schedule_sync.Scraper.Script.{
  value, matched_question, no_question_matched, SecurityQuestion, Script, Run, pure, throw, log,
  ◌>>=◌, ◌>>◌,
}

module _ (to_lower_case : String → String) where
  -- `entry.question && normalized.includes(entry.question.toLowerCase())`
  abbrev pub asks : String → Option String → Bool
  asks normalized none = false
  asks normalized (some question) =
      not (str_eq question "") && includes normalized (to_lower_case question)

  -- The loop: the first entry whose question is asked.
  unfoldable pub first_asked : String → List SecurityQuestion → Option SecurityQuestion
  first_asked normalized [] = none
  first_asked normalized (q ∷ qs) =
      if asks normalized q.question then some q else first_asked normalized qs

  abbrev question_text : Option String → String
  question_text none = ""
  question_text (some question) = question

  -- `questions[0].answer`, which throws on an empty list.
  abbrev pub first_entry : {W : Type 0} → List SecurityQuestion → Script W String
  first_entry [] = throw "Cannot read properties of undefined (reading 'answer')"
  first_entry (q ∷ qs) = pure (q.answer)

  abbrev pub answer_with :
      {W : Type 0} → Option SecurityQuestion → List SecurityQuestion → Script W String
  answer_with (some q) questions = do
    log (matched_question (question_text q.question))
    pure (q.answer)
  answer_with none questions = do log no_question_matched; first_entry questions

  unfoldable pub find_security_answer :
      {W : Type 0} → String → List SecurityQuestion → Script W String
  unfolding first_asked
  find_security_answer page_text questions =
      answer_with (first_asked (to_lower_case page_text) questions) questions

  -- `e` is asked, and no entry before it is.
  abbrev pub IsFirstAsked : String → SecurityQuestion → List SecurityQuestion → Type 0
  IsFirstAsked normalized e [] = ⊥
  IsFirstAsked normalized e (q ∷ qs) =
      ((asks normalized q.question ≡ true) × (e ≡ q))
      ⊎ ((asks normalized q.question ≡ false) × IsFirstAsked normalized e qs)

  abbrev pub NoneAsked : String → List SecurityQuestion → Type 0
  NoneAsked normalized qs = All (λ q. asks normalized q.question ≡ false) qs

  first_asked_cases :
      (normalized : String) (qs : List SecurityQuestion)
      → ((first_asked normalized qs ≡ none) × NoneAsked normalized qs)
        ⊎ ((e : SecurityQuestion) × (first_asked normalized qs ≡ some e)
            × IsFirstAsked normalized e qs)
  unfolding first_asked
  first_asked_cases normalized [] = inl (refl, tt)
  first_asked_cases normalized (q ∷ qs) = elim (Bool-cases (asks normalized q.question)) [
    | inl t ↦ inr (q, rw t, inl (t, refl))
    | inr t ↦ elim (first_asked_cases normalized qs) [
      | inl (e, no_one) ↦ inl (rw t e, (t, no_one))
      | inr (e, found, first) ↦ inr (e, rw t found, inr (t, first))
    ]
  ]

  -- With one entry or more the search throws nothing: it gives the answer of the first entry whose
  -- question stands on the page, or, if none does, the answer of the first entry.
  pub find_security_answer_lem :
      {W : Type 0} (page_text : String) (q : SecurityQuestion) (qs : List SecurityQuestion)
      (s : Run W)
      → let normalized = to_lower_case page_text in
        (answer : String) × ((find_security_answer page_text (q ∷ qs) s).0 ≡ value answer)
        × ((NoneAsked normalized (q ∷ qs) × (answer ≡ q.answer))
            ⊎ ((e : SecurityQuestion) × IsFirstAsked normalized e (q ∷ qs) × (answer ≡ e.answer)))
  unfolding find_security_answer log ◌>>=◌
  find_security_answer_lem page_text q qs s =
      elim (first_asked_cases (to_lower_case page_text) (q ∷ qs)) [
        | inl (e, no_one) ↦ (q.answer, rw e refl, inl (no_one, refl))
        | inr (e, found, first) ↦ (e.answer, rw found refl, inr (e, first, refl))
      ]
