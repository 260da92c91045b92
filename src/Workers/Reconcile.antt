-- ===== src/Workers/Reconcile.antt =====
-- workers/reconcile.processor.ts: the sweep that settles what a crash or a silent client left behind.
pub mod Alive
use orbitplay_api.Prelude.{
  ℕ, ◌*◌, ◌-◌, Bool, true, false, not, ◌&&◌, String, Option, none, some, List, [], ◌∷◌, filter, map,
  get, update, is_none, contains, ltb, ◌==◌, if◌then◌else◌,
}
use orbitplay_api.Exec.{Exec, pure, gets, modify, ◌>>=◌, ◌>>◌}
use orbitplay_api.Schema.Enums.{
  SessionStatus, processing, invalidated, is_unfinished, BuildStatus, ProcessingStatus,
}
use orbitplay_api.Schema.Rows.{BuildRow, RecordingRow, SessionRow, ValidationRow}
use orbitplay_api.Queue.{
  EnsureJobOutcome, exhausted, build_validate_job_id, media_transcode_job_id,
  media_extract_audio_job_id, session_validate_job_id,
}
use orbitplay_api.World.{World, Clock, ensure_enqueued}
use orbitplay_api.Participations.SessionQueries.{update_session}

abbrev pub stuck_grace_ms : ℕ
stuck_grace_ms = 15 * 60 * 1000

-- `for (const x of xs) await body(x)`
abbrev pub for_each : {A : Type 0} → (A → Exec World (Unit {0})) → List A → Exec World (Unit {0})
for_each body [] = pure tt
for_each body (x ∷ xs) = do body x; for_each body xs

abbrev is_processing_build : BuildStatus → Bool
is_processing_build BuildStatus.processing = true
is_processing_build _ = false

abbrev is_exhausted : EnsureJobOutcome → Bool
is_exhausted exhausted = true
is_exhausted _ = false

-- `UPDATE builds SET status = 'failed' … WHERE id = id AND status = 'processing'`
abbrev fail_build_row : BuildRow → BuildRow
fail_build_row b =
    if is_processing_build b.status
    then record b {
      status = BuildStatus.failed;
      failure_reason = some "Validação interrompida após falhas repetidas no processamento";
    }
    else b

-- One stuck build: its job is ensured, and a build whose job is given up is settled as failed.
unfoldable pub reconcile_build : BuildRow → Exec World (Unit {0})
reconcile_build b = do
  outcome ← ensure_enqueued (build_validate_job_id b.id)
  if is_exhausted outcome
      then modify (λ w. record w {
        db = record w.db { builds = update BuildRow.id b.id fail_build_row w.builds };
      })
      else pure tt

abbrev is_processing_recording : ProcessingStatus → Bool
is_processing_recording ProcessingStatus.processing = true
is_processing_recording _ = false

abbrev fail_recording_row : RecordingRow → RecordingRow
fail_recording_row r =
    if is_processing_recording r.status then record r { status = ProcessingStatus.failed } else r

-- One stuck recording; `created_at` is `createdAtFromUuidV7` of its id.
unfoldable pub reconcile_recording : (ℕ → ℕ) → ℕ → RecordingRow → Exec World (Unit {0})
reconcile_recording created_at cutoff r = if ltb cutoff (created_at r.id) then pure tt else do
  outcome ← ensure_enqueued (media_transcode_job_id r.id)
  if is_exhausted outcome
      then modify (λ w. record w {
        db = record w.db {
          recordings = update RecordingRow.id r.id fail_recording_row w.recordings;
        };
      })
      else do ensure_enqueued (media_extract_audio_job_id r.id); pure tt

-- `UPDATE sessions SET status = 'invalidated', ended_at = now WHERE … status IN (open)`
abbrev pub time_out : ℕ → SessionRow → SessionRow
time_out now s =
    if is_unfinished s.status then record s { status = invalidated; ended_at = some now } else s

-- One session that is still open: nothing while its heartbeat key lives.
unfoldable pub reconcile_open_session : ℕ → SessionRow → Exec World (Unit {0})
reconcile_open_session now s = do
  alive ← gets (λ w. contains s.id w.heartbeats)
  if alive then pure tt else do
    update_session s.id (time_out now)
    ensure_enqueued (session_validate_job_id s.id)
    pure tt

-- `reconcileTimedOutSessions`
unfoldable pub reconcile_timed_out_sessions : ℕ → Exec World (Unit {0})
unfolding reconcile_open_session
reconcile_timed_out_sessions now = do
  open_sessions ← gets (λ w. filter (λ s. is_unfinished s.status) w.sessions)
  for_each (reconcile_open_session now) open_sessions

abbrev ended_before : ℕ → Option ℕ → Bool
ended_before cutoff none = false
ended_before cutoff (some t) = ltb t cutoff

abbrev awaits_validation : SessionStatus → Bool
awaits_validation processing = true
awaits_validation invalidated = true
awaits_validation _ = false

-- `reconcileUnvalidatedSessions`
unfoldable pub reconcile_unvalidated_sessions : ℕ → Exec World (Unit {0})
reconcile_unvalidated_sessions cutoff = do
  closed ← gets (λ w.
      filter
        (λ s.
          awaits_validation s.status
          && ended_before cutoff s.ended_at
          && is_none (get ValidationRow.session_id s.id w.validations))
        w.sessions)
  for_each (λ s. do ensure_enqueued (session_validate_job_id s.id); pure tt) closed

-- `processReconcileStuckJobs`
unfoldable pub process_reconcile_stuck_jobs : (ℕ → ℕ) → Clock → Exec World (Unit {0})
unfolding reconcile_build reconcile_recording reconcile_timed_out_sessions
    reconcile_unvalidated_sessions
process_reconcile_stuck_jobs created_at clock = do
  let cutoff = clock.now - stuck_grace_ms
  stuck_builds ←
      gets (λ w. filter (λ b. is_processing_build b.status && ltb b.created_at cutoff) w.builds)
  for_each reconcile_build stuck_builds
  stuck_recordings ← gets (λ w. filter (λ r. is_processing_recording r.status) w.recordings)
  for_each (reconcile_recording created_at cutoff) stuck_recordings
  reconcile_timed_out_sessions clock.now
  reconcile_unvalidated_sessions cutoff
