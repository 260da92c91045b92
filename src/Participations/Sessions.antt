-- ===== src/Participations/Sessions.antt =====
-- modules/participations/sessions.service.ts and heartbeat.store.ts: a play session from its start to
-- its form.
pub mod Elsewhere
pub mod Final
pub mod OneOpen
pub mod Starting
pub mod Finish
use orbitplay_api.Prelude.{
  ℕ, ◌-◌, Bool, true, false, not, ◌&&◌, ◌||◌, String, Option, none, some, List, [], ◌∷◌, filter,
  all, map, get, ltb, leb, ◌==◌, min, if◌then◌else◌,
}
use text.Mathlib.Text.{◌==◌ as str_eq}
use orbitplay_api.Uuid.{Text}
use orbitplay_api.Errors.{
  AppException, not_found_default, conflict, validation, question, Field, Message,
  is_unique_violation, Failure,
}
use orbitplay_api.Exec.{Exec, pure, fail, raise, gets, modify, require, ensure, catch, ◌>>=◌, ◌>>◌}
use orbitplay_api.Schema.Enums.{
  TestStatus, published, paused, BuildStatus, ConsentKind, screen_recording, audio, microphone,
  webcam, same_kind, SessionStatus, starting, recording, processing, completed, invalidated,
  is_unfinished, TestModelKey,
}
use orbitplay_api.Schema.Rows.{BuildRow, ConsentRow, SessionRow, ValidationRow}
use orbitplay_api.FormAnswers.{AnswerInput, FieldErrors, check_form_answers}
use orbitplay_api.PlayerCta.{ended_by}
use orbitplay_api.TestModels.{required_consents}
use orbitplay_api.Queue.{session_validate_job_id}
use orbitplay_api.World.{
  World, Clock, FormResponseRow, invalidate_report_snapshots, ensure_enqueued, without,
}
use orbitplay_api.Participations.Repository.{get_test, participation_for_user, find_consent}
use orbitplay_api.Participations.Service.{is_empty}
use orbitplay_api.Participations.SessionQueries.{
  start_session, session_for_user, mark_recording, insert_device_event, finish_session,
  insert_form_response,
}

abbrev pub heartbeat_interval_ms : ℕ
heartbeat_interval_ms = 15000

abbrev pub heartbeat_timeout_seconds : ℕ
heartbeat_timeout_seconds = 60

-- `touchHeartbeat`: sets the key anew; that it expires later is a step of the environment.
abbrev pub touch_heartbeat : ℕ → Exec World (Unit {0})
touch_heartbeat id = modify (λ w. record w { heartbeats = id ∷ without id w.heartbeats })

-- `CONSENT_FIELD_BY_KIND`
abbrev pub consent_field : ConsentKind → ConsentRow → Bool
consent_field screen_recording c = c.screen_recording
consent_field audio c = c.audio
consent_field microphone c = c.microphone
consent_field webcam c = c.webcam

abbrev pub has_consent : Option ConsentRow → ConsentKind → Bool
has_consent none k = false
has_consent (some c) k = consent_field k c

abbrev pub is_playable : TestStatus → Bool
is_playable published = true
is_playable paused = true
is_playable _ = false

abbrev pub is_validated : Option BuildRow → Bool
is_validated none = false
is_validated (some b) = elim b.status [ BuildStatus.validated ↦ true | _ ↦ false ]

abbrev pub any_kind : ConsentKind → List ConsentKind → Bool
any_kind k [] = false
any_kind k (j ∷ js) = same_kind j k || any_kind k js

pub record SessionStartedView : Type 0 where
  pub session_id : ℕ
  pub started_at : ℕ
  pub recording_required : Bool

-- `start`
unfoldable pub start : Text → ℕ → Clock → ℕ → Exec World SessionStartedView
unfolding participation_for_user get_test find_consent required_consents start_session
start participation_id user_id clock new_id = do
  owned ← gets (participation_for_user participation_id user_id)
  participation ← require owned not_found_default
  found ← gets (get_test participation.test_id)
  test ← require found not_found_default
  ensure (is_playable test.status) (conflict "Teste não está aberto para participação")
  ensure (not (ended_by test.ends_at clock.now)) (conflict "Teste expirado")
  build ← gets (λ w. get BuildRow.test_id test.id w.builds)
  ensure (is_validated build) (conflict "Build não validada")
  consent ← gets (find_consent participation.id)
  ensure (all (has_consent consent) (required_consents test.model_key))
      (conflict "Consentimento obrigatório ausente")
  session ← start_session new_id participation.id test.id test.organization_id clock.now
  touch_heartbeat session.id
  invalidate_report_snapshots test.id
  pure (record {
    session_id = session.id;
    started_at = session.started_at;
    recording_required = any_kind screen_recording (required_consents test.model_key);
  })

-- `isClosed`
unfoldable pub is_closed : SessionRow → Bool
is_closed s = not (is_unfinished s.status)

-- `recordDeviceEvent`; a device event is of the microphone or the webcam.
unfoldable pub record_device_event : Text → ℕ → ConsentKind → Bool → ℕ → Exec World (Unit {0})
unfolding session_for_user is_closed
record_device_event session_id user_id kind enabled t_ms = do
  owned ← gets (session_for_user session_id user_id)
  session ← require owned not_found_default
  ensure (not (is_closed session)) (conflict "Sessão já encerrada")
  insert_device_event
      (record { session_id = session.id; t_ms = t_ms; kind = kind; value = enabled })

abbrev pub is_starting : SessionStatus → Bool
is_starting starting = true
is_starting _ = false

-- `heartbeat`
unfoldable pub heartbeat : Text → ℕ → Exec World (Unit {0})
unfolding session_for_user is_closed mark_recording
heartbeat session_id user_id = do
  owned ← gets (session_for_user session_id user_id)
  session ← require owned not_found_default
  ensure (not (is_closed session)) not_found_default
  touch_heartbeat session.id
  if is_starting session.status then mark_recording session.id else pure tt

-- `Math.min(dto.tMs, Math.max(0, endedAt - startedAt))`; `-` stops at 0 by itself.
abbrev pub duration_of : ℕ → ℕ → ℕ → ℕ
duration_of t_ms started_at ended_at = min t_ms (ended_at - started_at)

-- `finish`, up to the view that it returns.
unfoldable pub finish : Text → ℕ → ℕ → Clock → Exec World SessionRow
unfolding session_for_user finish_session
finish session_id user_id t_ms clock = do
  owned ← gets (session_for_user session_id user_id)
  session ← require owned not_found_default
  updated ←
      finish_session session.id session.participation_id clock.now
        (duration_of t_ms session.started_at clock.now)
  modify (λ w. record w { heartbeats = without session.id w.heartbeats })
  ensure_enqueued (session_validate_job_id session.id)
  invalidate_report_snapshots updated.test_id
  pure updated

abbrev field_errors_of : FieldErrors → List (Field × Message)
field_errors_of [] = []
field_errors_of ((t, m) ∷ es) = (question t, m) ∷ field_errors_of es

abbrev is_missing_message : Message → Bool
is_missing_message (Message.text m) = str_eq m "Resposta obrigatória"
is_missing_message (Message.integer_between a b) = false

-- `Object.values(fieldErrors).every((m) => m === 'Resposta obrigatória')`
unfoldable pub only_missing : FieldErrors → Bool
only_missing [] = true
only_missing ((t, m) ∷ es) = is_missing_message m && only_missing es

-- `submitFormResponse`
unfoldable pub submit_form_response :
    Text → ℕ → List AnswerInput → Clock → ℕ → Exec World FormResponseRow
unfolding session_for_user insert_form_response
submit_form_response session_id user_id given clock new_id = do
  owned ← gets (session_for_user session_id user_id)
  session ← require owned not_found_default
  questions ← gets (λ w. filter (λ q. q.test_id == session.test_id) w.questions)
  let checked = check_form_answers questions given
  ensure (is_empty checked.field_errors) (
      validation
        (if only_missing checked.field_errors
          then "Respostas obrigatórias pendentes"
          else "Respostas inválidas")
        (field_errors_of checked.field_errors))
  response ← catch (insert_form_response new_id session.id clock.now checked.answers) (λ e.
      if is_unique_violation e
      then raise (conflict "Avaliação já enviada para esta sessão")
      else fail e)
  invalidate_report_snapshots session.test_id
  pure response

pub data SessionViewStatus : Type 0 where
  active finishing in_review valid invalid abandoned : SessionViewStatus

-- `toSessionStatus`
unfoldable pub to_session_status : SessionStatus → Option ValidationRow → SessionViewStatus
to_session_status starting v = active
to_session_status recording v = active
to_session_status SessionStatus.paused v = active
to_session_status SessionStatus.finishing v = SessionViewStatus.finishing
to_session_status processing v = in_review
to_session_status invalidated v = abandoned
to_session_status completed none = in_review
to_session_status completed (some v) = if v.valid then valid else invalid
