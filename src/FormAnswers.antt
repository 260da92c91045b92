-- ===== src/FormAnswers.antt =====
-- modules/participations/form-answers.ts: the answers of a player checked against the questions of
-- the test.
pub mod Accepted
pub mod Required
use orbitplay_api.Prelude.{
  ℕ, ◌≡◌, Bool, true, false, not, ◌&&◌, ◌||◌, ◌==◌, Option, none, some, List, [], ◌∷◌, ◌++◌, leb,
  ltb, all, any, length, contains, get_or, if◌then◌else◌,
}
use orbitplay_api.Uuid.{Text, uuid, other, text_length, text_eq, units_eq}
use orbitplay_api.Errors.{Message, integer_between}
use orbitplay_api.Schema.Enums.{
  QuestionType, scale, single_choice, multiple_choice, open_text, boolean, nps,
}
use orbitplay_api.Schema.Rows.{QuestionRow, OptionRow}

abbrev pub open_text_answer_max_length : ℕ
open_text_answer_max_length = 5000

-- `RATING_SCALE_BOUNDS`
abbrev pub rating_scale_min : ℕ
rating_scale_min = 0

abbrev pub rating_scale_max : ℕ
rating_scale_max = 10

-- A number of the language: an integer, or what `Number.isInteger` refuses.
pub data Number : Type 0 where
  nat : ℕ → Number
  negative : ℕ → Number
  fractional : Number

-- The union of `answerInputSchema`.
pub data AnswerValue : Type 0 where
  text : Text → AnswerValue
  number : Number → AnswerValue
  bool : Bool → AnswerValue
  items : List Text → AnswerValue

pub record AnswerInput : Type 0 where
  pub question_id : Text
  pub value : AnswerValue

-- What `trim` strips: the white space and line ends of the language.
abbrev is_space : ℕ → Bool
is_space c =
    (leb 9 c && leb c 13)
    || c == 32
    || c == 160
    || c == 0x1680
    || (leb 0x2000 c && leb c 0x200a)
    || c == 0x2028
    || c == 0x2029
    || c == 0x202f
    || c == 0x205f
    || c == 0x3000
    || c == 0xfeff

-- `text.trim() === ''`
unfoldable pub is_blank_text : Text → Bool
is_blank_text (uuid i) = false
is_blank_text (other s) = all is_space s

unfoldable pub is_blank : AnswerValue → Bool
unfolding is_blank_text
is_blank (text t) = is_blank_text t
is_blank (items []) = true
is_blank _ = false

unfoldable pub is_option : QuestionRow → Text → Bool
unfolding text_eq
is_option q t = any (λ o. text_eq (uuid o.id) t) q.options

abbrev pub member : Text → List Text → Bool
member t [] = false
member t (s ∷ ss) = text_eq t s || member t ss

-- `new Set(value).size === value.length`
unfoldable pub all_distinct : List Text → Bool
all_distinct [] = true
all_distinct (t ∷ ts) = not (member t ts) && all_distinct ts

abbrev pub scale_min_of : QuestionRow → ℕ
scale_min_of q = get_or q.scale_min rating_scale_min

abbrev pub scale_max_of : QuestionRow → ℕ
scale_max_of q = get_or q.scale_max rating_scale_max

abbrev in_scale : QuestionRow → AnswerValue → Bool
in_scale q (number (nat n)) = leb (scale_min_of q) n && leb n (scale_max_of q)
in_scale q _ = false

abbrev message_unless : Bool → Message → Option Message
message_unless true m = none
message_unless false m = some m

abbrev rating_error : QuestionRow → AnswerValue → Option Message
rating_error q v = message_unless (in_scale q v) (integer_between (scale_min_of q) (scale_max_of q))

abbrev bad_option : Message
bad_option = Message.text "Opção inválida para esta pergunta"

abbrev bad_options : Message
bad_options = Message.text "Opções inválidas para esta pergunta"

-- The `switch` on the question's type.
abbrev error_for : QuestionType → QuestionRow → AnswerValue → Option Message
error_for open_text q (text t) =
    message_unless (leb (text_length t) open_text_answer_max_length)
      (Message.text "Resposta deve ter no máximo 5000 caracteres")
error_for open_text q _ = some (Message.text "Resposta deve ser um texto")
error_for boolean q (bool b) = none
error_for boolean q _ = some (Message.text "Resposta deve ser sim ou não")
error_for scale q v = rating_error q v
error_for nps q v = rating_error q v
error_for single_choice q (items (t ∷ [])) = message_unless (is_option q t) bad_option
error_for single_choice q (text t) = message_unless (is_option q t) bad_option
error_for single_choice q _ = some bad_option
error_for multiple_choice q (items ts) =
    message_unless (all_distinct ts && all (is_option q) ts) bad_options
error_for multiple_choice q _ = some bad_options

unfoldable pub answer_error : QuestionRow → AnswerValue → Option Message
unfolding is_option all_distinct
answer_error q v = error_for q.type q v

-- An object of messages: writing a key again replaces its message.
abbrev pub FieldErrors : Type 0
FieldErrors = List (Text × Message)

abbrev pub has_error : Text → FieldErrors → Bool
has_error k [] = false
has_error k ((j, m) ∷ es) = text_eq j k || has_error k es

abbrev pub write_error : Text → Message → FieldErrors → FieldErrors
write_error k m [] = (k, m) ∷ []
write_error k m ((j, n) ∷ es) = if text_eq j k then (j, m) ∷ es else (j, n) ∷ write_error k m es

-- The text `__proto__`.
abbrev pub is_proto : Text → Bool
is_proto (uuid i) = false
is_proto (other s) = units_eq s (95 ∷ 95 ∷ 112 ∷ 114 ∷ 111 ∷ 116 ∷ 111 ∷ 95 ∷ 95 ∷ [])

-- `fieldErrors[key] = message` on a plain object: for the key `__proto__` it sets no key, as a text is
-- no prototype.
abbrev pub set_error : Text → Message → FieldErrors → FieldErrors
set_error k m es = if is_proto k then es else write_error k m es

pub record Checked : Type 0 where
  pub seen : List ℕ
  pub answers : List AnswerInput
  pub field_errors : FieldErrors

-- `new Map(questions.map((q) => [q.id, q])).get(id)`: of two with one id the later wins.
unfoldable pub question_by_id : Text → List QuestionRow → Option QuestionRow
question_by_id t [] = none
question_by_id t (q ∷ qs) = elim (question_by_id t qs) [
  | some r ↦ some r
  | none ↦ if text_eq (uuid q.id) t then some q else none
]

-- A single choice given as a text is kept as a list of one.
abbrev pub stored_value : QuestionType → AnswerValue → AnswerValue
stored_value single_choice (text t) = items (t ∷ [])
stored_value _ v = v

keep_answer : QuestionRow → AnswerInput → Option Message → Checked → Checked
keep_answer q a (some m) s = record s { field_errors = set_error (uuid q.id) m s.field_errors }
keep_answer q a none s = record s {
  answers =
      s.answers ++ record { question_id = a.question_id; value = stored_value q.type a.value } ∷ [];
}

-- One round of the first loop, for an answer whose question is found.
check_known : QuestionRow → AnswerInput → Checked → Checked
unfolding keep_answer
check_known q a s =
    if contains q.id s.seen
    then (record s {
      field_errors =
          set_error (uuid q.id) (Message.text "Pergunta respondida mais de uma vez") s.field_errors;
    })
    else (let s' = record s { seen = q.id ∷ s.seen } in
        if is_blank a.value then s' else keep_answer q a (answer_error q a.value) s')

check_found : Option QuestionRow → AnswerInput → Checked → Checked
unfolding check_known
check_found none a s = record s {
  field_errors =
      set_error a.question_id (Message.text "Pergunta não pertence a este formulário")
        s.field_errors;
}
check_found (some q) a s = check_known q a s

check_answers : List QuestionRow → List AnswerInput → Checked → Checked
unfolding check_found
check_answers questions [] s = s
check_answers questions (a ∷ later) s =
    check_answers questions later (check_found (question_by_id a.question_id questions) a s)

abbrev pub is_answered : ℕ → List AnswerInput → Bool
is_answered i answers = any (λ a. text_eq a.question_id (uuid i)) answers

-- The second loop.
require_answers : List AnswerInput → List QuestionRow → FieldErrors → FieldErrors
require_answers answers [] es = es
require_answers answers (q ∷ qs) es = require_answers answers qs (
    if q.required && not (is_answered q.id answers) && not (has_error (uuid q.id) es)
    then set_error (uuid q.id) (Message.text "Resposta obrigatória") es
    else es)

pub record CheckedFormAnswers : Type 0 where
  pub answers : List AnswerInput
  pub field_errors : FieldErrors

unfoldable pub check_form_answers : List QuestionRow → List AnswerInput → CheckedFormAnswers
unfolding check_answers require_answers
check_form_answers questions answers =
    let s =
      check_answers questions answers (record { seen = []; answers = []; field_errors = [] }) in
    record {
      answers = s.answers;
      field_errors = require_answers s.answers questions s.field_errors;
    }
