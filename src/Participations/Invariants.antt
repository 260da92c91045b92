-- ===== src/Participations/Invariants.antt =====
-- Invariants of the database over every history: what keeps a predicate at each single write of the
-- participation and session code keeps it over handlers, jobs and all their interleavings.
pub mod Builds
pub mod Steps
use orbitplay_api.Prelude.{
  ◌≡◌, refl, is_some, any, ℕ, inl, inr, Bool, Option, none, some, List, [], ◌∷◌, ◌++◌, Bool-cases,
}
use orbitplay_api.Uuid.{Text}
use orbitplay_api.Exec.{Exec, pure, fail, modify}
use orbitplay_api.Exec.Keeps.{
  Keeps-if, Keeps-fail, Keeps-ensure, Keeps-modify, Keeps-bind, Keeps-pure, keeps_rules,
}
use orbitplay_api.Schema.Enums.{ConsentKind, ParticipationStatus, processing}
use orbitplay_api.Schema.Rows.{
  SessionRow, DeviceEventRow, BuildRow, BuildStepRow, XpEventRow, ValidationRow, RecordingRow,
  ParticipationRow,
}
use orbitplay_api.FormAnswers.{AnswerInput}
use orbitplay_api.World.{
  Db, World, Clock, transaction, invalidate_dashboard_kpis, invalidate_report_snapshots,
  ensure_enqueued,
}
use orbitplay_api.Queue.{JobId}
use orbitplay_api.World.Keeps.{
  DbKeeps, Keeps-transaction, Keeps-ensure_enqueued, Keeps-invalidate_kpis,
}
use orbitplay_api.Participations.Repository.{
  upsert_consent, set_participation_status, reserve_participation,
}
use orbitplay_api.Participations.SessionQueries.{
  start_session, finish_session, find_form_response, update_session, close_session,
  insert_device_event, fits_int4, mark_recording, insert_form_response,
}
use orbitplay_api.Participations.Service.{assert_age_eligible, join, record_consents}
use orbitplay_api.Participations.Sessions.{
  start, record_device_event, heartbeat, finish, submit_form_response,
}
use orbitplay_api.Workers.SessionValidate.{
  validated_status, Verdict, insert_xp_event, credit_user, credit_session_xp, insert_validation,
  apply_verdict, validate_found, process_session_validate,
}
use orbitplay_api.Workers.Reconcile.{
  time_out, for_each, reconcile_build, reconcile_recording, reconcile_open_session,
  reconcile_timed_out_sessions, reconcile_unvalidated_sessions, process_reconcile_stuck_jobs,
}

pub Keeps-fits_int4 : (Q : Db → Type 0) (n : ℕ) → DbKeeps Q (fits_int4 n)
Keeps-fits_int4 Q n = Keeps-if _ _ _ (Keeps-pure tt) (Keeps-fail _)

-- One field for each write, and one for the validation of a session.
pub record Writes (Q : Db → Type 0) : Type 0 where
  pub invalidate : (i : ℕ) → DbKeeps Q (invalidate_report_snapshots i)
  pub set_status : (i : ℕ) (st : ParticipationStatus) → DbKeeps Q (set_participation_status i st)
  pub reserve : (now t u n : ℕ) → DbKeeps Q (reserve_participation now t u n)
  pub consent :
      (i : ℕ) (given : List (ConsentKind × Bool)) (now : ℕ) → DbKeeps Q (upsert_consent i given now)
  pub device : (e : DeviceEventRow) → DbKeeps Q (insert_device_event e)
  pub form :
      (n s now : ℕ) (answers : List AnswerInput) → DbKeeps Q (insert_form_response n s now answers)
  pub start : (n p t o now : ℕ) → DbKeeps Q (start_session n p t o now)
  pub mark : (i : ℕ) → DbKeeps Q (mark_recording i)
  pub finish : (i p ended d : ℕ) → DbKeeps Q (finish_session i p ended d)
  pub expire : (i now : ℕ) → DbKeeps Q (update_session i (time_out now))
  pub validate : (i : ℕ) (clock : Clock) → DbKeeps Q (process_session_validate i clock)
  pub builds :
      (f : World → List BuildRow)
      → DbKeeps Q (modify (λ w. record w { db = record w.db { builds = f w } }))
  pub build_steps :
      (f : World → List BuildStepRow)
      → DbKeeps Q (modify (λ w. record w { db = record w.db { build_steps = f w } }))
  pub recordings :
      (f : World → List RecordingRow)
      → DbKeeps Q (modify (λ w. record w { db = record w.db { recordings = f w } }))

module _ (Q : Db → Type 0) (K : Writes Q) where
  Keeps-heartbeats : (f : World → List ℕ) → DbKeeps Q (modify (λ w. record w { heartbeats = f w }))
  Keeps-heartbeats f = Keeps-modify _ (λ w h. h)

  Keeps-kpis : (i : ℕ) → DbKeeps Q (invalidate_dashboard_kpis i)
  Keeps-kpis = Keeps-invalidate_kpis Q

  Keeps-job : (i : JobId) → DbKeeps Q (ensure_enqueued i)
  Keeps-job = Keeps-ensure_enqueued Q

  Keeps-atomic : {A : Type 0} (m : Exec World A) → DbKeeps Q m → DbKeeps Q (transaction m)
  Keeps-atomic = Keeps-transaction Q

  Keeps-age :
      (test_id user_id : ℕ) (clock : Clock) → DbKeeps Q (assert_age_eligible test_id user_id clock)
  unfolding assert_age_eligible
  Keeps-age test_id user_id clock = record {
    at = λ w h. (Keeps-ensure {P = λ (v : World). Q v.db} _ _).at w h;
  }

  ruleset write_rules =
      (keeps_rules, Keeps-atomic, Keeps-kpis, Keeps-job, Keeps-heartbeats, Keeps-age)

  pub Keeps-join :
      (t : Text) (u : ℕ) (clock : Clock) (new_id : ℕ) → DbKeeps Q (join t u clock new_id)
  unfolding join
  Keeps-join t u clock new_id = search (write_rules, K.invalidate, K.reserve) depth 40

  pub Keeps-heartbeat : (s : Text) (u : ℕ) → DbKeeps Q (heartbeat s u)
  unfolding heartbeat
  Keeps-heartbeat s u = search (write_rules, K.mark) depth 40

  pub Keeps-finish : (s : Text) (u t_ms : ℕ) (clock : Clock) → DbKeeps Q (finish s u t_ms clock)
  unfolding finish
  Keeps-finish s u t_ms clock = search (write_rules, K.finish, K.invalidate) depth 40

  pub Keeps-start :
      (p : Text) (u : ℕ) (clock : Clock) (new_id : ℕ) → DbKeeps Q (start p u clock new_id)
  unfolding start
  Keeps-start p u clock new_id = search (write_rules, K.start, K.invalidate) depth 40

  pub Keeps-device_event :
      (s : Text) (u : ℕ) (kind : ConsentKind) (enabled : Bool) (t_ms : ℕ)
      → DbKeeps Q (record_device_event s u kind enabled t_ms)
  unfolding record_device_event
  Keeps-device_event s u kind enabled t_ms = search (write_rules, K.device) depth 40

  pub Keeps-consents :
      (p : Text) (u : ℕ) (given : List (ConsentKind × Bool)) (clock : Clock)
      → DbKeeps Q (record_consents p u given clock)
  unfolding record_consents
  Keeps-consents p u given clock = search (write_rules, K.consent) depth 40

  pub Keeps-submit :
      (s : Text) (u : ℕ) (given : List AnswerInput) (clock : Clock) (new_id : ℕ)
      → DbKeeps Q (submit_form_response s u given clock new_id)
  unfolding submit_form_response
  Keeps-submit s u given clock new_id = search (write_rules, K.form, K.invalidate) depth 40

  Keeps-for_each :
      {A : Type 0} (body : A → Exec World (Unit {0})) (xs : List A)
      → ((x : A) → DbKeeps Q (body x))
      → DbKeeps Q (for_each body xs)
  Keeps-for_each body [] k = Keeps-pure tt
  Keeps-for_each body (x ∷ xs) k = Keeps-bind _ _ (k x) (λ t. Keeps-for_each body xs k)

  pub Keeps-reconcile :
      (created_at : ℕ → ℕ) (clock : Clock)
      → DbKeeps Q (process_reconcile_stuck_jobs created_at clock)
  unfolding process_reconcile_stuck_jobs reconcile_build reconcile_recording reconcile_open_session
      reconcile_timed_out_sessions reconcile_unvalidated_sessions
  Keeps-reconcile created_at clock =
      search (write_rules, Keeps-for_each, K.builds, K.recordings, K.expire) depth 40

-- The validation of a session, of its single writes.
module _ (Q : Db → Type 0) (invalidate : (i : ℕ) → DbKeeps Q (invalidate_report_snapshots i))
    (set : (i : ℕ) (st : ParticipationStatus) → DbKeeps Q (set_participation_status i st))
    (judge : (i : ℕ) (b : Bool)
      → DbKeeps Q (update_session i (λ r. record r { status = validated_status b })))
    (validation : (v : ValidationRow) → DbKeeps Q (insert_validation v)) where
  Keeps-apply :
      (s : SessionRow) (v : Verdict) (now : ℕ)
      → ((r : SessionRow) → r ≡ s → DbKeeps Q (credit_session_xp r))
      → DbKeeps Q (apply_verdict s v now)
  unfolding apply_verdict
  Keeps-apply s v now credit =
      let same : s ≡ s = refl in
      Keeps-transaction Q _ (search (keeps_rules, validation, judge, set, credit, same) depth 40)

  pub Keeps-found :
      (s : SessionRow) (clock : Clock)
      → ((r : SessionRow) → r ≡ s → DbKeeps Q (credit_session_xp r))
      → DbKeeps Q (validate_found (some s) clock)
  Keeps-found s clock credit =
      let applied : (v : Verdict) (now : ℕ) → DbKeeps Q (apply_verdict s v now) =
        λ v now. Keeps-apply s v now credit in
      let kpis = Keeps-invalidate_kpis Q in search (keeps_rules, applied, kpis, invalidate) depth 40

  validated :
      (o : Option SessionRow) (clock : Clock)
      → ((s : SessionRow) → DbKeeps Q (credit_session_xp s))
      → DbKeeps Q (validate_found o clock)
  validated none clock credit = Keeps-fail _
  validated (some s) clock credit = Keeps-found s clock (λ r e. credit r)

  pub Keeps-validate :
      (i : ℕ) (clock : Clock)
      → ((s : SessionRow) → DbKeeps Q (credit_session_xp s))
      → DbKeeps Q (process_session_validate i clock)
  unfolding process_session_validate
  Keeps-validate i clock credit = search (keeps_rules, validated, credit) depth 40

-- The two transactions on sessions, of their single writes.
module _ (Q : Db → Type 0)
    (set : (i : ℕ) (st : ParticipationStatus) → DbKeeps Q (set_participation_status i st)) where
  pub Keeps-start_session :
      (n p t o now : ℕ)
      → ((s : SessionRow)
          → DbKeeps Q
              (modify (λ w. record w { db = record w.db { sessions = w.sessions ++ s ∷ [] } })))
      → DbKeeps Q (start_session n p t o now)
  unfolding start_session
  Keeps-start_session n p t o now added =
      Keeps-transaction Q _ (search (keeps_rules, set, added) depth 40)

  pub Keeps-finish_session :
      (i p ended d : ℕ)
      → ((j e k : ℕ) → DbKeeps Q (update_session j (close_session processing e k)))
      → DbKeeps Q (finish_session i p ended d)
  unfolding finish_session
  Keeps-finish_session i p ended d closed =
      Keeps-transaction Q _ (search (keeps_rules, set, closed) depth 40)
