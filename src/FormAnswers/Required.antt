-- ===== src/FormAnswers/Required.antt =====
-- What a request without field errors satisfies.
use mathlib.Core.List.{Memᴰ}
use orbitplay_api.Prelude.{
  ℕ, ◌≡◌, ◌≢◌, refl, sym, ◌∙◌, ◌⊎◌, inl, inr, true, false, Option, none, some, List, [], ◌∷◌, arith,
  contains, filter, not, All, Bool-cases, All-mono, subst,
}
use orbitplay_api.Uuid.{Text, uuid, other, text_eq}
use orbitplay_api.Errors.{Message}
use orbitplay_api.Schema.Rows.{QuestionRow}
use orbitplay_api.FormAnswers.{
  AnswerInput, FieldErrors, is_blank, is_answered, write_error, is_proto, set_error, answer_error,
  question_by_id, stored_value, Checked, keep_answer, check_known, check_found, check_answers,
  require_answers, check_form_answers,
}
use orbitplay_api.FormAnswers.Accepted.{
  Fits, Distinct, NotIn, question_ids, question_by_id_sound, answer_error-Fits,
}

write_error-ne : (k : Text) (m : Message) (es : FieldErrors) → write_error k m es ≢ []
write_error-ne k m [] h = cc
write_error-ne k m ((j, n) ∷ es) h = ground arith

set_error-ne :
    (k : Text) (m : Message) (es : FieldErrors) → is_proto k ≡ false → set_error k m es ≢ []
set_error-ne k m es p h = write_error-ne k m es (rw p at h)

require_answers-empty :
    (answers : List AnswerInput) (qs : List QuestionRow) (es : FieldErrors)
    → require_answers answers qs es ≡ []
    → (es ≡ []) × All (λ (q : QuestionRow). q.required ≡ true → is_answered q.id answers ≡ true) qs
unfolding require_answers
require_answers-empty answers [] es h = (h, tt)
require_answers-empty answers (q ∷ qs) es h =
    let (e, later) = require_answers-empty answers qs _ h in
    (
      ground (arith, write_error-ne (uuid q.id) (Message.text "Resposta obrigatória") es),
      (
        λ needed.
            ground (arith, write_error-ne (uuid q.id) (Message.text "Resposta obrigatória") es),
        later,
      ),
    )

-- What the first loop has accepted of one given answer.
abbrev IsGood : List QuestionRow → List ℕ → AnswerInput → Type 0
IsGood questions seen a =
    (q : QuestionRow) × Memᴰ q questions
    × (a.question_id ≡ uuid q.id)
    × (contains q.id seen ≡ false)
    × ((is_blank a.value ≡ true) ⊎ Fits q.type q (stored_value q.type a.value))

-- One round that leaves no error.
abbrev IsGoodRound : QuestionRow → AnswerInput → Checked → Checked → Type 0
IsGoodRound q a s s' =
    (s.field_errors ≡ [])
    × (contains q.id s.seen ≡ false)
    × ((is_blank a.value ≡ true) ⊎ Fits q.type q (stored_value q.type a.value))
    × (s'.seen ≡ q.id ∷ s.seen)

keep_answer-empty :
    (q : QuestionRow) (a : AnswerInput) (o : Option Message) (s : Checked)
    → (keep_answer q a o s).field_errors ≡ []
    → (o ≡ none) × (s.field_errors ≡ []) × ((keep_answer q a o s).seen ≡ s.seen)
unfolding keep_answer
keep_answer-empty q a none s h = (refl, h, refl)
keep_answer-empty q a (some m) s h = absurd (write_error-ne (uuid q.id) m s.field_errors h)

check_known-empty :
    (q : QuestionRow) (a : AnswerInput) (s : Checked)
    → (check_known q a s).field_errors ≡ []
    → IsGoodRound q a s (check_known q a s)
unfolding check_known
check_known-empty q a s h = elim (Bool-cases (contains q.id s.seen)) [
  | inl twice ↦ absurd (write_error-ne (uuid q.id) _ s.field_errors (rw twice at h))
  | inr c ↦ elim (Bool-cases (is_blank a.value)) [
    | inl blank ↦ rw (c, blank) (rw (c, blank) at h, refl, inl refl, refl)
    | inr filled ↦
        let s' = record s { seen = q.id ∷ s.seen } in
        let (fine, none_yet, seen) =
          keep_answer-empty q a (answer_error q a.value) s' (rw (c, filled) at h) in
        rw (c, filled) (none_yet, refl, inr (answer_error-Fits q a.value fine filled), seen)
  ]
]

check_found-empty :
    (questions : List QuestionRow) (a : AnswerInput) (o : Option QuestionRow) (s : Checked)
    → question_by_id a.question_id questions ≡ o
    → is_proto a.question_id ≡ false
    → (check_found o a s).field_errors ≡ []
    → (q : QuestionRow) × Memᴰ q questions
      × (a.question_id ≡ uuid q.id)
      × IsGoodRound q a s (check_found o a s)
unfolding check_found
check_found-empty questions a none s e p h =
    absurd (set_error-ne a.question_id _ s.field_errors p h)
check_found-empty questions a (some q) s e p h =
    let (mem, w) = question_by_id_sound a.question_id questions q e in
    (q, mem, w, check_known-empty q a s h)

-- A later answer is for another question than one that is seen now.
later_is_other :
    (questions : List QuestionRow) (i : ℕ) (seen : List ℕ) (a : AnswerInput)
    → IsGood questions (i ∷ seen) a
    → uuid i ≢ a.question_id
later_is_other questions i seen a (q, m, e, c, f) p = ground arith

NotIn-later :
    (questions : List QuestionRow) (i : ℕ) (seen : List ℕ) (t : Text) (later : List AnswerInput)
    → t ≡ uuid i
    → All (IsGood questions (i ∷ seen)) later
    → NotIn t (question_ids later)
NotIn-later questions i seen t [] e h = tt
NotIn-later questions i seen t (a ∷ later) e h = (
  λ p. later_is_other questions i seen a h.0 (sym e ∙ p),
  NotIn-later questions i seen t later e h.1,
)

IsGood-earlier :
    (questions : List QuestionRow) (i : ℕ) (seen : List ℕ) (later : List AnswerInput)
    → All (IsGood questions (i ∷ seen)) later
    → All (IsGood questions seen) later
IsGood-earlier questions i seen later =
    All-mono (IsGood questions (i ∷ seen)) (IsGood questions seen) later
      (λ a g. (g.0, g.1, g.2, ground arith, g.4))

check_answers-empty :
    (questions : List QuestionRow) (given : List AnswerInput) (s : Checked)
    → All (λ (a : AnswerInput). is_proto a.question_id ≡ false) given
    → (check_answers questions given s).field_errors ≡ []
    → (s.field_errors ≡ []) × All (IsGood questions s.seen) given × Distinct (question_ids given)
unfolding check_answers
check_answers-empty questions [] s p h = (h, tt, tt)
check_answers-empty questions (a ∷ later) s p h =
    let s' = check_found (question_by_id a.question_id questions) a s in
    let (e', good, distinct) = check_answers-empty questions later s' p.1 h in
    let (q, mem, w, round) =
      check_found-empty questions a (question_by_id a.question_id questions) s refl p.0 e' in
    let good' = subst (λ x. All (IsGood questions x) later) round.3 good in
    (
      round.0,
      ((q, mem, w, round.1, round.2), IsGood-earlier questions q.id s.seen later good'),
      (NotIn-later questions q.id s.seen a.question_id later w good', distinct),
    )

-- An answer as a complete form holds it: for a question of the form, and either blank or with a value
-- that the question takes once it is stored.
abbrev pub IsValidAnswer : List QuestionRow → AnswerInput → Type 0
IsValidAnswer questions a =
    (q : QuestionRow) × Memᴰ q questions
    × (a.question_id ≡ uuid q.id)
    × ((is_blank a.value ≡ true) ⊎ Fits q.type q (stored_value q.type a.value))

-- The answers that the check looks at: one for the id `__proto__` is for no question, and the error
-- that says so is written to no key.
abbrev pub noticed : List AnswerInput → List AnswerInput
noticed given = filter (λ (a : AnswerInput). not (is_proto a.question_id)) given

proto_unknown :
    (t : Text) (questions : List QuestionRow)
    → is_proto t ≡ true
    → question_by_id t questions ≡ none
unfolding question_by_id text_eq
proto_unknown (uuid i) questions h = cc
proto_unknown (other s) [] h = refl
proto_unknown (other s) (q ∷ qs) h = rw (proto_unknown (other s) qs h) refl

proto_ignored :
    (a : AnswerInput) (questions : List QuestionRow) (s : Checked)
    → is_proto a.question_id ≡ true
    → check_found (question_by_id a.question_id questions) a s ≡ s
unfolding check_found
proto_ignored a questions s h = rw (proto_unknown a.question_id questions h, h) refl

check_answers-noticed :
    (questions : List QuestionRow) (given : List AnswerInput) (s : Checked)
    → check_answers questions (noticed given) s ≡ check_answers questions given s
unfolding check_answers
check_answers-noticed questions [] s = refl
check_answers-noticed questions (a ∷ given) s = elim (Bool-cases (is_proto a.question_id)) [
  | inl y ↦
      let same = proto_ignored a questions s y in
      rw (y, same) (check_answers-noticed questions given s)
  | inr n ↦ rw n (
      check_answers-noticed questions given
        (check_found (question_by_id a.question_id questions) a s))
]

noticed-All :
    (given : List AnswerInput)
    → All (λ (a : AnswerInput). is_proto a.question_id ≡ false) (noticed given)
noticed-All [] = tt
noticed-All (a ∷ given) = elim (Bool-cases (is_proto a.question_id)) [
  | inl y ↦ rw y (noticed-All given)
  | inr n ↦ rw n (n, noticed-All given)
]

-- If the check reports no field error, then every required question of the form has an accepted
-- answer; and, of the answers that were sent, all but those for the id `__proto__`, which the check
-- passes over in silence, are for a question of the form and are blank or fit it, and no two of
-- them are for one question.
pub no_error_complete :
    (questions : List QuestionRow) (given : List AnswerInput)
    → (check_form_answers questions given).field_errors ≡ []
    → All
        (λ (q : QuestionRow).
          q.required ≡ true → is_answered q.id (check_form_answers questions given).answers ≡ true)
        questions
      × All (IsValidAnswer questions) (noticed given)
      × Distinct (question_ids (noticed given))
unfolding check_form_answers
no_error_complete questions given h =
    let start : Checked = record { seen = []; answers = []; field_errors = [] } in
    let s = check_answers questions given start in
    let (first, answered) = require_answers-empty s.answers questions s.field_errors h in
    let first' : (check_answers questions (noticed given) start).field_errors ≡ [] =
      rw (check_answers-noticed questions given start) first in
    let (_, good, distinct) =
      check_answers-empty questions (noticed given) start (noticed-All given) first' in
    (
      answered,
      All-mono (IsGood questions []) (IsValidAnswer questions) (noticed given)
          (λ a g. (g.0, g.1, g.2, g.4)) good,
      distinct,
    )
