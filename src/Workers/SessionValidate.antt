-- ===== src/Workers/SessionValidate.antt =====
-- workers/session.processor.ts: the validation of a session that has ended, and its XP.
pub mod Rewards
pub mod Once
pub mod Verdicts
use orbitplay_api.Prelude.{
  ℕ, Bool, true, false, not, ◌&&◌, ◌||◌, String, Option, none, some, List, [], ◌∷◌, ◌++◌, any, get,
  update, is_some, leb, ◌==◌, if◌then◌else◌,
}
use orbitplay_api.Errors.{error, ok}
use orbitplay_api.Exec.{Exec, pure, fail, gets, modify, ◌>>=◌, ◌>>◌}
use orbitplay_api.Schema.Enums.{ParticipationStatus, SessionStatus, invalidated, ProcessingStatus}
use orbitplay_api.Schema.Rows.{
  ParticipationRow, SessionRow, RecordingRow, ValidationRow, XpEventRow,
}
use orbitplay_api.World.{
  World, Clock, transaction, invalidate_report_snapshots, invalidate_dashboard_kpis,
}
use orbitplay_api.Participations.Repository.{set_participation_status}
use orbitplay_api.Participations.SessionQueries.{update_session}

abbrev pub session_completion_xp : ℕ
session_completion_xp = 50

pub record Verdict : Type 0 where
  pub valid : Bool
  pub reason : Option String

abbrev pub is_invalidated : SessionStatus → Bool
is_invalidated invalidated = true
is_invalidated _ = false

-- `!session.durationMs || session.durationMs <= 0`
abbrev pub has_no_duration : Option ℕ → Bool
has_no_duration none = true
has_no_duration (some d) = leb d 0

abbrev pub is_failed_recording : ℕ → RecordingRow → Bool
is_failed_recording session_id r =
    (r.session_id == session_id) && elim r.status [ ProcessingStatus.failed ↦ true | _ ↦ false ]

unfoldable pub verdict_of : SessionRow → List RecordingRow → Verdict
verdict_of s recordings =
    if is_invalidated s.status
    then record { valid = false; reason = some "Sessão encerrada por timeout de heartbeat" }
    else if has_no_duration s.duration_ms
    then record { valid = false; reason = some "Sessão sem duração registrada" }
    else if any (is_failed_recording s.id) recordings
    then record { valid = false; reason = some "Gravação da sessão falhou no processamento" }
    else record { valid = true; reason = none }

abbrev pub session_test_is : ℕ → Option SessionRow → Bool
session_test_is test_id none = false
session_test_is test_id (some s) = s.test_id == test_id

-- The inner join of `xp_events` with `sessions`: an event of this user for a session of this test.
abbrev pub rewards : ℕ → ℕ → List SessionRow → XpEventRow → Bool
rewards user_id test_id sessions e =
    (e.user_id == user_id) && session_test_is test_id (get SessionRow.id e.source_id sessions)

abbrev pub same_source : ℕ → ℕ → XpEventRow → Bool
same_source user_id source_id e = (e.user_id == user_id) && (e.source_id == source_id)

-- `INSERT … ON CONFLICT DO NOTHING` on `xp_events_source_unique`.
abbrev pub insert_xp_event : XpEventRow → Exec World (Unit {0})
insert_xp_event e w =
    if any (same_source e.user_id e.source_id) w.xp_events
    then pure tt w
    else (ok tt, record w { db = record w.db { xp_events = w.xp_events ++ e ∷ [] } })

abbrev pub credit_user : Option ParticipationRow → SessionRow → Exec World (Unit {0})
credit_user none s w = pure tt w
credit_user (some p) s w =
    if any (rewards p.user_id s.test_id w.sessions) w.xp_events
    then pure tt w
    else insert_xp_event
        (record { user_id = p.user_id; source_id = s.id; xp = session_completion_xp }) w

-- `creditSessionXp`
unfoldable pub credit_session_xp : SessionRow → Exec World (Unit {0})
credit_session_xp s w =
    credit_user (get ParticipationRow.id s.participation_id w.participations) s w

abbrev pub validated_status : Bool → SessionStatus
validated_status true = SessionStatus.completed
validated_status false = invalidated

abbrev pub judged_status : Bool → ParticipationStatus
judged_status true = ParticipationStatus.completed
judged_status false = ParticipationStatus.rejected

abbrev pub insert_validation : ValidationRow → Exec World (Unit {0})
insert_validation v =
    modify (λ w. record w { db = record w.db { validations = w.validations ++ v ∷ [] } })

-- The transaction of `processSessionValidate`; the result says whether it was applied.
unfoldable pub apply_verdict : SessionRow → Verdict → ℕ → Exec World Bool
unfolding set_participation_status credit_session_xp
apply_verdict s v now = transaction (do
  already ← gets (λ w. is_some (get ValidationRow.session_id s.id w.validations))
  if already then pure false else do
    insert_validation
        (record { session_id = s.id; valid = v.valid; reason = v.reason; validated_at = now })
    update_session s.id (λ r. record r { status = validated_status v.valid })
    set_participation_status s.participation_id (judged_status v.valid)
    if v.valid then credit_session_xp s else pure tt
    pure true)

abbrev pub validate_found : Option SessionRow → Clock → Exec World (Unit {0})
validate_found none clock = fail (error "session not found")
validate_found (some s) clock = do
  v ← gets (λ w. verdict_of s w.recordings)
  applied ← apply_verdict s v clock.now
  if applied
      then (do invalidate_dashboard_kpis s.organization_id; invalidate_report_snapshots s.test_id)
      else pure tt

-- `processSessionValidate`
unfoldable pub process_session_validate : ℕ → Clock → Exec World (Unit {0})
unfolding verdict_of apply_verdict
process_session_validate session_id clock = do
  already ← gets (λ w. is_some (get ValidationRow.session_id session_id w.validations))
  found ← gets (λ w. get SessionRow.id session_id w.sessions)
  if already then pure tt else validate_found found clock
