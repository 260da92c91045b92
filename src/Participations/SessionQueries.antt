-- ===== src/Participations/SessionQueries.antt =====
-- modules/participations/participations.repository.ts: the queries and transactions on
-- sessions, their forms and validations.
use orbitplay_api.Prelude.{
  leb, ℕ, ◌+◌, Bool, false, not, ◌&&◌, Option, none, some, List, [], ◌∷◌, ◌++◌, ltb, any, get,
  update, is_some, option_map, ◌==◌, if◌then◌else◌,
}
use orbitplay_api.Uuid.{Text, as_uuid}
use orbitplay_api.Errors.{Failure, error, conflict, unique_violation, ok}
use orbitplay_api.Exec.{Exec, pure, fail, gets, modify, require, ensure, ◌>>=◌, ◌>>◌}
use orbitplay_api.Schema.Enums.{
  playing, in_review, SessionStatus, starting, recording, processing, is_startable, is_open_session,
  is_unfinished,
}
use orbitplay_api.Schema.Rows.{
  ParticipationRow, SessionRow, DeviceEventRow, ValidationRow, XpEventRow,
}
use orbitplay_api.FormAnswers.{AnswerInput}
use orbitplay_api.World.{FormResponseRow, World, transaction}
use orbitplay_api.Participations.Repository.{find_by, set_participation_status}

-- `ORDER BY started_at DESC LIMIT 1`
abbrev pub later_started : SessionRow → Option SessionRow → SessionRow
later_started s none = s
later_started s (some t) = if ltb s.started_at t.started_at then t else s

unfoldable pub last_started : (SessionRow → Bool) → List SessionRow → Option SessionRow
last_started p [] = none
last_started p (s ∷ ss) =
    let rest = last_started p ss in if p s then some (later_started s rest) else rest

abbrev pub is_open_of : ℕ → SessionRow → Bool
is_open_of participation_id s = (s.participation_id == participation_id) && is_open_session s.status

unfoldable pub find_open_session_id : ℕ → World → Option ℕ
find_open_session_id participation_id w =
    option_map (λ (s : SessionRow). s.id) (last_started (is_open_of participation_id) w.sessions)

abbrev pub new_session : ℕ → ℕ → ℕ → ℕ → ℕ → SessionRow
new_session id participation_id test_id organization_id now = record {
  id = id;
  participation_id = participation_id;
  test_id = test_id;
  organization_id = organization_id;
  status = starting;
  started_at = now;
  ended_at = none;
  duration_ms = none;
}

abbrev pub is_startable_row : Option ParticipationRow → Bool
is_startable_row none = false
is_startable_row (some p) = is_startable p.status

-- `startSession`: the check for an open session, the compare-and-set on the participation and the
-- insert are one transaction.
unfoldable pub start_session : ℕ → ℕ → ℕ → ℕ → ℕ → Exec World SessionRow
unfolding set_participation_status
start_session new_id participation_id test_id organization_id now = transaction (do
  open_session ← gets (λ w. any (is_open_of participation_id) w.sessions)
  ensure (not open_session) (conflict "Já existe uma sessão ativa para esta participação")
  startable ←
      gets (λ w. is_startable_row (get ParticipationRow.id participation_id w.participations))
  ensure startable (conflict "Esta participação já foi jogada")
  set_participation_status participation_id playing
  modify (λ w. record w {
    db = record w.db {
      sessions = w.sessions ++ new_session new_id participation_id test_id organization_id now ∷ [];
    };
  })
  pure (new_session new_id participation_id test_id organization_id now))

abbrev session_owned_by : ℕ → World → Option SessionRow → Option SessionRow
session_owned_by user_id w none = none
session_owned_by user_id w (some s) =
    elim (get ParticipationRow.id s.participation_id w.participations) [
      | none ↦ none
      | some p ↦ if p.user_id == user_id then some s else none
    ]

-- `findSessionForUser`
unfoldable pub session_for_user : Text → ℕ → World → Option SessionRow
session_for_user id user_id w =
    session_owned_by user_id w (find_by (λ i. get SessionRow.id i w.sessions) (as_uuid id))

abbrev pub update_session : ℕ → (SessionRow → SessionRow) → Exec World (Unit {0})
update_session id f =
    modify (λ w. record w { db = record w.db { sessions = update SessionRow.id id f w.sessions } })

-- `markRecording`: `starting` to `recording`, and only from `starting`.
abbrev pub mark_recording_row : SessionRow → SessionRow
mark_recording_row s = elim s.status [ starting ↦ record s { status = recording } | _ ↦ s ]

unfoldable pub mark_recording : ℕ → Exec World (Unit {0})
mark_recording id = update_session id mark_recording_row

-- The largest number of an `integer` column.
abbrev pub max_int4 : ℕ
max_int4 = 2147483647

abbrev pub out_of_range : Failure
out_of_range = error "integer out of range"

-- A statement with a larger number fails before it looks at a row.
abbrev pub fits_int4 : ℕ → Exec World (Unit {0})
fits_int4 n = if leb n max_int4 then pure tt else fail out_of_range

-- `insertDeviceEvent`
unfoldable pub insert_device_event : DeviceEventRow → Exec World (Unit {0})
insert_device_event e = do
  fits_int4 e.t_ms
  modify (λ w. record w { db = record w.db { device_events = w.device_events ++ e ∷ [] } })

abbrev pub close_session : SessionStatus → ℕ → ℕ → SessionRow → SessionRow
close_session st ended_at duration_ms s = record s {
  status = st;
  ended_at = some ended_at;
  duration_ms = some duration_ms;
}

abbrev pub is_unfinished_row : Option SessionRow → Bool
is_unfinished_row none = false
is_unfinished_row (some s) = is_unfinished s.status

-- `finishSession`: the compare-and-set on the session and the hand-over of the participation.
unfoldable pub finish_session : ℕ → ℕ → ℕ → ℕ → Exec World SessionRow
unfolding set_participation_status
finish_session session_id participation_id ended_at duration_ms = transaction (do
  fits_int4 duration_ms
  unfinished ← gets (λ w. is_unfinished_row (get SessionRow.id session_id w.sessions))
  ensure unfinished (conflict "Sessão já encerrada")
  update_session session_id (close_session processing ended_at duration_ms)
  set_participation_status participation_id in_review
  updated ← gets (λ w. get SessionRow.id session_id w.sessions)
  require updated (conflict "Sessão já encerrada"))

unfoldable pub find_form_response : ℕ → World → Option FormResponseRow
find_form_response session_id w = get FormResponseRow.session_id session_id w.form_responses

-- `insertFormResponse`; `form_responses_session_unique` allows one response for each session.
unfoldable pub insert_form_response : ℕ → ℕ → ℕ → List AnswerInput → Exec World FormResponseRow
unfolding find_form_response
insert_form_response new_id session_id now answers w =
    let r : FormResponseRow = record {
      id = new_id;
      session_id = session_id;
      submitted_at = now;
      answers = answers;
    } in
    if is_some (find_form_response session_id w)
    then fail unique_violation w
    else (ok r, record w { db = record w.db { form_responses = w.form_responses ++ r ∷ [] } })

unfoldable pub find_session_validation : ℕ → World → Option ValidationRow
find_session_validation session_id w = get ValidationRow.session_id session_id w.validations

-- `findOpenOrLastSessionId`
unfoldable pub find_open_or_last_session_id : ℕ → World → Option ℕ
unfolding find_open_session_id
find_open_or_last_session_id participation_id w = elim (find_open_session_id participation_id w) [
  | some i ↦ some i
  | none ↦
      option_map (λ (s : SessionRow). s.id)
        (last_started (λ s. s.participation_id == participation_id) w.sessions)
]

abbrev pub sum_xp : ℕ → List XpEventRow → ℕ
sum_xp session_id [] = 0
sum_xp session_id (e ∷ es) = (if e.source_id == session_id then e.xp else 0) + sum_xp session_id es

-- `sumXpForSession`
unfoldable pub sum_xp_for_session : ℕ → World → ℕ
sum_xp_for_session session_id w = sum_xp session_id w.xp_events
