-- ===== src/Examples/Answers.antt =====
-- Runs of the checks on answers and on ages.
use orbitplay_api.Prelude.{
  suc, ◌-◌, ◌≡◌, ◌≤◌, ◌↔◌, ◌⊎◌, refl, true, none, some, List, [], ◌∷◌, arith, All,
}
use orbitplay_api.Uuid.{uuid, other, text_eq}
use orbitplay_api.Schema.Rows.{QuestionRow}
use orbitplay_api.FormAnswers.{
  AnswerInput, number, nat, is_answered, is_blank, answer_error, question_by_id, check_form_answers,
}
use orbitplay_api.FormAnswers.Accepted.{IsAccepted, Distinct, question_ids, accepted_answers_fit}
use orbitplay_api.FormAnswers.Required.{IsValidAnswer, noticed, no_error_complete}
use orbitplay_api.Eligibility.{Date, age_eligible}
use orbitplay_api.Eligibility.Age.{age, IsBirthday, age_check_exact, leap_day_admits_younger}
use orbitplay_api.Examples.{rating, noon}

abbrev form : List QuestionRow
form = rating ∷ []

abbrev given : List AnswerInput
given = record { question_id = uuid 21; value = number (nat 8) } ∷ []

accepted_answers_fit_example :
    All (IsAccepted form) (check_form_answers form given).answers
    × Distinct (question_ids (check_form_answers form given).answers)
accepted_answers_fit_example = accepted_answers_fit form given

-- With an answer for `__proto__`.
abbrev sneaked : List AnswerInput
sneaked =
    record {
      question_id = other (95 ∷ 95 ∷ 112 ∷ 114 ∷ 111 ∷ 116 ∷ 111 ∷ 95 ∷ 95 ∷ []);
      value = number (nat 3);
    }
    ∷ given

no_error_complete_example :
    All
      (λ (q : QuestionRow).
        q.required ≡ true → is_answered q.id (check_form_answers form sneaked).answers ≡ true)
      form
    × All (IsValidAnswer form) (noticed sneaked)
    × Distinct (question_ids (noticed sneaked))
unfolding check_form_answers question_by_id text_eq is_blank answer_error
no_error_complete_example = no_error_complete form sneaked refl

abbrev birth : Date
birth = record { year = 1985; month = 3; day = 10 }

age_check_exact_example :
    (age_eligible noon.today (some (record { age_min = some 18; age_max = some 40 })) (some birth)
      ≡ true)
    ↔ ((18 ≤ age birth noon.today)
        × ((age birth noon.today ≤ 40)
            ⊎ ((age birth noon.today ≡ suc 40) × IsBirthday birth noon.today)))
age_check_exact_example =
    age_check_exact noon.today birth 18 40 refl refl (omega arith) (omega arith)

leap_day_admits_younger_example :
    (age_eligible
        (record { year = 2028; month = 2; day = 29 })
        (some (record { age_min = some 18; age_max = none }))
        (some (record { year = 2028 - 18; month = 3; day = 1 }))
      ≡ true)
    × (age
          (record { year = 2028 - 18; month = 3; day = 1 })
          (record { year = 2028; month = 2; day = 29 })
        ≡ 18 - 1)
leap_day_admits_younger_example = leap_day_admits_younger 2028 18 (omega arith) refl
