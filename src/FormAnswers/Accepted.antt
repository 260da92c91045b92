-- ===== src/FormAnswers/Accepted.antt =====
-- What every accepted answer satisfies: it answers a question of the form with a value that fits the
-- question, and no question is answered twice.
use mathlib.Core.List.{Memᴰ}
use orbitplay_api.Prelude.{
  ℕ, ◌≤◌, ◌≡◌, ◌≢◌, refl, sym, ◌∙◌, inl, inr, true, false, Option, none, some, List, [], ◌∷◌, ◌++◌,
  arith, contains, any, all, All, Bool-cases, Option-cases, subst, All-append_one, All-mono,
}
use orbitplay_api.Uuid.{Text, uuid, text_eq, text_eq-eq, text_eq_refl, text_length}
use orbitplay_api.Schema.Enums.{
  QuestionType, scale, single_choice, multiple_choice, open_text, boolean, nps,
}
use orbitplay_api.Schema.Rows.{QuestionRow, OptionRow}
use orbitplay_api.Errors.{Message}
use orbitplay_api.FormAnswers.{
  AnswerValue, text, number, bool, items, nat, AnswerInput, is_blank_text, is_blank, is_option,
  member, all_distinct, scale_min_of, scale_max_of, answer_error, error_for, question_by_id,
  stored_value, Checked, keep_answer, check_known, check_found, check_answers, check_form_answers,
  open_text_answer_max_length,
}

-- An option of the question whose id the text writes.
abbrev pub IsOption : QuestionRow → Text → Type 0
IsOption q t = (o : OptionRow) × Memᴰ o q.options × (t ≡ uuid o.id)

abbrev pub NotIn : Text → List Text → Type 0
NotIn t ts = All (λ s. t ≢ s) ts

abbrev pub Distinct : List Text → Type 0
Distinct [] = Unit {0}
Distinct (t ∷ ts) = NotIn t ts × Distinct ts

-- The values that a question of a type takes, as they are stored.
abbrev pub Fits : QuestionType → QuestionRow → AnswerValue → Type 0
Fits open_text q (text t) =
    (text_length t ≤ open_text_answer_max_length) × (is_blank_text t ≡ false)
Fits boolean q (bool b) = Unit {0}
Fits scale q (number (nat n)) = (scale_min_of q ≤ n) × (n ≤ scale_max_of q)
Fits nps q (number (nat n)) = (scale_min_of q ≤ n) × (n ≤ scale_max_of q)
Fits single_choice q (items (t ∷ [])) = IsOption q t
Fits multiple_choice q (items (t ∷ ts)) = All (IsOption q) (t ∷ ts) × Distinct (t ∷ ts)
Fits _ q _ = ⊥

any-IsOption :
    (t : Text) (os : List OptionRow)
    → any (λ o. text_eq (uuid o.id) t) os ≡ true
    → (o : OptionRow) × Memᴰ o os × (t ≡ uuid o.id)
any-IsOption t [] h = cc
any-IsOption t (o ∷ os) h = elim (Bool-cases (text_eq (uuid o.id) t)) [
  | inl e ↦ (o, Memᴰ.head refl, sym (text_eq-eq (uuid o.id) t e))
  | inr e ↦ let (p, m, q) = any-IsOption t os (ground arith) in (p, Memᴰ.tail m, q)
]

is_option-IsOption : (q : QuestionRow) (t : Text) → is_option q t ≡ true → IsOption q t
unfolding is_option
is_option-IsOption q t h = any-IsOption t q.options h

all-IsOption :
    (q : QuestionRow) (ts : List Text) → all (is_option q) ts ≡ true → All (IsOption q) ts
all-IsOption q [] h = tt
all-IsOption q (t ∷ ts) h =
    (is_option-IsOption q t (ground arith), all-IsOption q ts (ground arith))

member-NotIn : (t : Text) (ts : List Text) → member t ts ≡ false → NotIn t ts
member-NotIn t [] h = tt
member-NotIn t (s ∷ ss) h = (λ e. ground (arith, text_eq_refl t), member-NotIn t ss (ground arith))

all_distinct-Distinct : (ts : List Text) → all_distinct ts ≡ true → Distinct ts
unfolding all_distinct
all_distinct-Distinct [] h = tt
all_distinct-Distinct (t ∷ ts) h =
    (member-NotIn t ts (ground arith), all_distinct-Distinct ts (ground arith))

error_for-Fits :
    (type : QuestionType) (q : QuestionRow) (v : AnswerValue)
    → error_for type q v ≡ none
    → is_blank v ≡ false
    → Fits type q (stored_value type v)
unfolding is_blank
error_for-Fits open_text q (text t) h b = ground arith
error_for-Fits boolean q (bool x) h b = tt
error_for-Fits scale q (number (nat n)) h b = ground arith
error_for-Fits nps q (number (nat n)) h b = ground arith
error_for-Fits single_choice q (items (t ∷ [])) h b = is_option-IsOption q t (ground arith)
error_for-Fits single_choice q (text t) h b = is_option-IsOption q t (ground arith)
error_for-Fits multiple_choice q (items (t ∷ ts)) h b =
    (all-IsOption q (t ∷ ts) (ground arith), all_distinct-Distinct (t ∷ ts) (ground arith))
error_for-Fits type q v h b = cc

pub answer_error-Fits :
    (q : QuestionRow) (v : AnswerValue)
    → answer_error q v ≡ none
    → is_blank v ≡ false
    → Fits q.type q (stored_value q.type v)
unfolding answer_error
answer_error-Fits q v h b = error_for-Fits q.type q v h b

-- A question that is found is one of the form's, and has the id that was asked for.
pub question_by_id_sound :
    (t : Text) (qs : List QuestionRow) (q : QuestionRow)
    → question_by_id t qs ≡ some q
    → Memᴰ q qs × (t ≡ uuid q.id)
unfolding question_by_id
question_by_id_sound t [] q h = cc
question_by_id_sound t (p ∷ qs) q h = elim (Option-cases (question_by_id t qs)) [
  | inl e ↦ elim (Bool-cases (text_eq (uuid p.id) t)) [
    | inl y ↦
        let same : p ≡ q = ground arith in
        subst (λ (x : QuestionRow). Memᴰ x (p ∷ qs) × (t ≡ uuid x.id)) same
          (Memᴰ.head refl, sym (text_eq-eq (uuid p.id) t y))
    | inr n ↦ ground arith
  ]
  | inr (r, e) ↦ let (m, w) = question_by_id_sound t qs q (ground arith) in (Memᴰ.tail m, w)
]

-- An answer to a question of the form, with a value that the question takes.
abbrev pub IsAccepted : List QuestionRow → AnswerInput → Type 0
IsAccepted questions a =
    (q : QuestionRow) × Memᴰ q questions × (a.question_id ≡ uuid q.id) × Fits q.type q a.value

abbrev pub question_ids : List AnswerInput → List Text
question_ids [] = []
question_ids (a ∷ answers) = a.question_id ∷ question_ids answers

abbrev WasSeen : List ℕ → AnswerInput → Type 0
WasSeen seen a = (i : ℕ) × (a.question_id ≡ uuid i) × (contains i seen ≡ true)

record IsSound (questions : List QuestionRow) (s : Checked) : Type 0 where
  accepted : All (IsAccepted questions) s.answers
  distinct : Distinct (question_ids s.answers)
  was_seen : All (WasSeen s.seen) s.answers

Distinct-append_one :
    (answers : List AnswerInput) (a : AnswerInput)
    → Distinct (question_ids answers)
    → All (λ (x : AnswerInput). x.question_id ≢ a.question_id) answers
    → Distinct (question_ids (answers ++ a ∷ []))
Distinct-append_one [] a d n = (tt, tt)
Distinct-append_one (x ∷ answers) a d n =
    (NotIn-append_one x.question_id answers a d.0 n.0, Distinct-append_one answers a d.1 n.1)
  where
    NotIn-append_one :
        (t : Text) (answers : List AnswerInput) (a : AnswerInput)
        → NotIn t (question_ids answers)
        → t ≢ a.question_id
        → NotIn t (question_ids (answers ++ a ∷ []))
    NotIn-append_one t [] a h n = (n, tt)
    NotIn-append_one t (x ∷ answers) a h n = (h.0, NotIn-append_one t answers a h.1 n)

unseen_ne :
    (i : ℕ) (seen : List ℕ) (a : AnswerInput)
    → contains i seen ≡ false
    → WasSeen seen a
    → a.question_id ≢ uuid i
unseen_ne i seen a h (j, e, c) p = ground arith

weaken_seen :
    (i : ℕ) (seen : List ℕ) (answers : List AnswerInput)
    → All (WasSeen seen) answers
    → All (WasSeen (i ∷ seen)) answers
weaken_seen i seen answers =
    All-mono (WasSeen seen) (WasSeen (i ∷ seen)) answers (λ x w. (w.0, w.1, ground arith))

module _ (questions : List QuestionRow) where
  keep_answer-IsSound :
      (q : QuestionRow) (a : AnswerInput) (o : Option Message) (s : Checked)
      → Memᴰ q questions
      → a.question_id ≡ uuid q.id
      → (o ≡ none → Fits q.type q (stored_value q.type a.value))
      → contains q.id s.seen ≡ false
      → IsSound questions s
      → IsSound questions (keep_answer q a o (record s { seen = q.id ∷ s.seen }))
  unfolding keep_answer
  keep_answer-IsSound q a (some m) s mem e fits c h = record {
    accepted = h.accepted;
    distinct = h.distinct;
    was_seen = weaken_seen q.id s.seen s.answers h.was_seen;
  }
  keep_answer-IsSound q a none s mem e fits c h =
      let new : AnswerInput = record {
        question_id = a.question_id;
        value = stored_value q.type a.value;
      } in
      record {
        accepted =
            All-append_one (IsAccepted questions) s.answers new h.accepted (q, mem, e, fits refl);
        distinct = Distinct-append_one s.answers new h.distinct (
            All-mono (WasSeen s.seen) (λ x. x.question_id ≢ a.question_id) s.answers
              (λ x w p. unseen_ne q.id s.seen x c w (p ∙ e)) h.was_seen);
        was_seen =
            All-append_one (WasSeen (q.id ∷ s.seen)) s.answers new
              (weaken_seen q.id s.seen s.answers h.was_seen) (q.id, e, ground arith);
      }

  check_known-IsSound :
      (q : QuestionRow) (a : AnswerInput) (s : Checked)
      → Memᴰ q questions
      → a.question_id ≡ uuid q.id
      → IsSound questions s
      → IsSound questions (check_known q a s)
  unfolding check_known
  check_known-IsSound q a s mem e h = elim (Bool-cases (contains q.id s.seen)) [
    | inl twice ↦
        rw twice (record { accepted = h.accepted; distinct = h.distinct; was_seen = h.was_seen })
    | inr c ↦ rw c (elim (Bool-cases (is_blank a.value)) [
      | inl blank ↦ rw blank (record {
        accepted = h.accepted;
        distinct = h.distinct;
        was_seen = weaken_seen q.id s.seen s.answers h.was_seen;
      })
      | inr filled ↦ rw filled (
          keep_answer-IsSound q a (answer_error q a.value) s mem e
            (λ none_wrong. answer_error-Fits q a.value none_wrong filled) c h)
    ])
  ]

  check_found-IsSound :
      (o : Option QuestionRow) (a : AnswerInput) (s : Checked)
      → question_by_id a.question_id questions ≡ o
      → IsSound questions s
      → IsSound questions (check_found o a s)
  unfolding check_found
  check_found-IsSound none a s e h = record {
    accepted = h.accepted;
    distinct = h.distinct;
    was_seen = h.was_seen;
  }
  check_found-IsSound (some q) a s e h =
      let (mem, w) = question_by_id_sound a.question_id questions q e in
      check_known-IsSound q a s mem w h

  check_answers-IsSound :
      (answers : List AnswerInput) (s : Checked)
      → IsSound questions s
      → IsSound questions (check_answers questions answers s)
  unfolding check_answers
  check_answers-IsSound [] s h = h
  check_answers-IsSound (a ∷ later) s h =
      check_answers-IsSound later _
        (check_found-IsSound (question_by_id a.question_id questions) a s refl h)

  -- Whatever the request sends, each accepted answer is for a question of the form and holds a value
  -- that the question takes (a text that is not blank and not too long, a rating within the scale,
  -- an option of the question, a list of distinct options), and no two accepted answers are for one
  -- question.
  pub accepted_answers_fit :
      (answers : List AnswerInput)
      → let accepted = (check_form_answers questions answers).answers in
        All (IsAccepted questions) accepted × Distinct (question_ids accepted)
  unfolding check_form_answers
  accepted_answers_fit answers =
      let sound =
        check_answers-IsSound answers (record { seen = []; answers = []; field_errors = [] })
          (record { accepted = tt; distinct = tt; was_seen = tt }) in
      (sound.accepted, sound.distinct)
