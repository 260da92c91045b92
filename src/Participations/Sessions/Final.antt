-- ===== src/Participations/Sessions/Final.antt =====
-- What is final about a session: once closed it stays closed, and its verdict and its form do not
-- change any more.
use orbitplay_api.Prelude.{
  is_some, ℕ, ◌≡◌, refl, inl, inr, Bool, true, false, some, List, [], ◌∷◌, ◌++◌, arith, get, update,
  get-update, get-append, Bool-cases, ◌==◌, if◌then◌else◌,
}
use orbitplay_api.Exec.{Exec, fail, modify}
use orbitplay_api.Exec.Keeps.{Keeps-modify, Keeps-bind}
use orbitplay_api.Schema.Enums.{ParticipationStatus, processing, ConsentKind, is_unfinished}
use orbitplay_api.Schema.Rows.{DeviceEventRow, SessionRow, ValidationRow}
use orbitplay_api.FormAnswers.{AnswerInput}
use orbitplay_api.World.{Db, World, FormResponseRow, invalidate_report_snapshots}
use orbitplay_api.World.Keeps.{DbKeeps}
use orbitplay_api.Participations.Repository.{set_participation_status, upsert_consent}
use orbitplay_api.Participations.SessionQueries.{
  insert_device_event, find_form_response, insert_form_response, update_session, mark_recording,
  mark_recording_row, close_session,
}
use orbitplay_api.Workers.SessionValidate.{validated_status}
use orbitplay_api.Workers.Reconcile.{time_out}
use orbitplay_api.Participations.Invariants.{
  Keeps-fits_int4, Keeps-validate, Writes, Keeps-start_session, Keeps-finish_session,
}
use orbitplay_api.Participations.Invariants.Steps.{Reach, reach_keeps}
use orbitplay_api.Participations.Sessions.Elsewhere.{
  Elsewhere, set_status-Elsewhere, reserve-Elsewhere, credit-Elsewhere,
}

-- The session is closed, and the verdict and the form that it had in `before` are still there.
pub record IsFinal (i : ℕ) (before d : Db) : Type 0 where
  pub session : SessionRow
  pub found : get SessionRow.id i d.sessions ≡ some session
  pub closed : is_unfinished session.status ≡ false
  pub verdict :
      (v : ValidationRow)
      → get ValidationRow.session_id i before.validations ≡ some v
      → get ValidationRow.session_id i d.validations ≡ some v
  pub form :
      (r : FormResponseRow)
      → get FormResponseRow.session_id i before.form_responses ≡ some r
      → get FormResponseRow.session_id i d.form_responses ≡ some r

module _ (i : ℕ) (before : Db) where
  abbrev Q : Db → Type 0
  Q d = IsFinal i before d

  -- A write to one session that keeps its id and leaves a closed session closed.
  Keeps-session :
      (j : ℕ) (f : SessionRow → SessionRow)
      → ((s : SessionRow) → (f s).id ≡ s.id)
      → ((s : SessionRow) → is_unfinished s.status ≡ false → is_unfinished (f s).status ≡ false)
      → DbKeeps Q (update_session j f)
  Keeps-session j f same closes = Keeps-modify _ (λ w h.
      let moved : get SessionRow.id i (update SessionRow.id j f w.sessions)
          ≡ (if j == i then some (f h.session) else some h.session) =
        ground (arith, get-update SessionRow.id j i f w.sessions same, h.found) in
      elim (Bool-cases (j == i)) [
        | inl y ↦ record {
          session = f h.session;
          found = ground arith;
          closed = closes h.session h.closed;
          verdict = h.verdict;
          form = h.form;
        }
        | inr n ↦ record {
          session = h.session;
          found = ground arith;
          closed = h.closed;
          verdict = h.verdict;
          form = h.form;
        }
      ])

  moved_elsewhere : (d e : Db) → Elsewhere d e → Q d → Q e
  moved_elsewhere d e same h = record {
    session = h.session;
    found = rw same.0 h.found;
    closed = h.closed;
    verdict = λ v b. rw same.1 (h.verdict v b);
    form = λ r b. rw same.2 (h.form r b);
  }

  Keeps-elsewhere :
      {A : Type 0} (m : Exec World A) → ((w : World) → Elsewhere w.db (m w).1.db) → DbKeeps Q m
  Keeps-elsewhere m same = record { at = λ w h. moved_elsewhere w.db (m w).1.db (same w) h }

  -- A new row leaves the row that is found where there is one.
  Keeps-validation :
      (v : ValidationRow)
      → DbKeeps Q
          (modify (λ w. record w { db = record w.db { validations = w.validations ++ v ∷ [] } }))
  Keeps-validation v = Keeps-modify _ (λ w h. record {
    session = h.session;
    found = h.found;
    closed = h.closed;
    verdict =
        λ b e. ground (arith, get-append ValidationRow.session_id i w.validations v, h.verdict b e);
    form = h.form;
  })

  Keeps-open :
      (s : SessionRow)
      → DbKeeps Q (modify (λ w. record w { db = record w.db { sessions = w.sessions ++ s ∷ [] } }))
  Keeps-open s = Keeps-modify _ (λ w h. record {
    session = h.session;
    found = ground (arith, get-append SessionRow.id i w.sessions s, h.found);
    closed = h.closed;
    verdict = h.verdict;
    form = h.form;
  })

  Keeps-form :
      (n s now : ℕ) (answers : List AnswerInput) → DbKeeps Q (insert_form_response n s now answers)
  unfolding insert_form_response fail
  Keeps-form n s now answers = record {
    at = λ w h. elim (Bool-cases (is_some (find_form_response s w))) [
      | inl e ↦ rw e h
      | inr e ↦ rw e (record {
        session = h.session;
        found = h.found;
        closed = h.closed;
        verdict = h.verdict;
        form = λ b q. ground (
          arith,
          get-append FormResponseRow.session_id i w.form_responses
              (record { id = n; session_id = s; submitted_at = now; answers = answers }),
          h.form b q,
        );
      })
    ];
  }

  Keeps-mark : (j : ℕ) → DbKeeps Q (mark_recording j)
  unfolding mark_recording
  Keeps-mark j = Keeps-session j mark_recording_row (λ s. ground arith) (λ s h. ground arith)

  Keeps-invalidate : (j : ℕ) → DbKeeps Q (invalidate_report_snapshots j)
  unfolding invalidate_report_snapshots modify
  Keeps-invalidate j = Keeps-elsewhere _ (λ w. (refl, refl, refl))

  Keeps-consent :
      (j : ℕ) (given : List (ConsentKind × Bool)) (now : ℕ) → DbKeeps Q (upsert_consent j given now)
  unfolding upsert_consent
  Keeps-consent j given now = Keeps-elsewhere _ (λ w. (refl, refl, refl))

  judged_closed : (b : Bool) → is_unfinished (validated_status b) ≡ false
  judged_closed true = refl
  judged_closed false = refl

  Keeps-device : (e : DeviceEventRow) → DbKeeps Q (insert_device_event e)
  unfolding insert_device_event modify
  Keeps-device e =
      Keeps-bind _ _ (Keeps-fits_int4 Q _) (λ x. Keeps-elsewhere _ (λ w. (refl, refl, refl)))

  Keeps-status : (j : ℕ) (st : ParticipationStatus) → DbKeeps Q (set_participation_status j st)
  Keeps-status j st = Keeps-elsewhere _ (set_status-Elsewhere j st)

  final_writes : Writes Q
  unfolding modify
  final_writes = record {
    invalidate = Keeps-invalidate;
    set_status = Keeps-status;
    reserve = λ now t u n. Keeps-elsewhere _ (reserve-Elsewhere now t u n);
    consent = Keeps-consent;
    device = Keeps-device;
    form = Keeps-form;
    start = λ n p t o now. Keeps-start_session Q Keeps-status n p t o now Keeps-open;
    mark = Keeps-mark;
    finish = λ j p e d.
        Keeps-finish_session Q Keeps-status j p e d
          (λ j e k. Keeps-session j (close_session processing e k) (λ s. refl) (λ s h. refl));
    expire = λ j now. Keeps-session j (time_out now) (λ s. ground arith) (λ s h. ground arith);
    validate = λ j clock.
        Keeps-validate Q Keeps-invalidate Keeps-status
          (λ j b. Keeps-session j _ (λ s. refl) (λ s h. judged_closed b)) Keeps-validation j clock
          (λ s. Keeps-elsewhere _ (credit-Elsewhere s));
    builds = λ f. Keeps-elsewhere _ (λ w. (refl, refl, refl));
    build_steps = λ f. Keeps-elsewhere _ (λ w. (refl, refl, refl));
    recordings = λ f. Keeps-elsewhere _ (λ w. (refl, refl, refl));
  }

-- A session that is closed stays closed in every later state, whatever players and workers do and in
-- whatever order, and a verdict or a form that it has by then is never changed or replaced.
pub closed_session-IsFinal :
    (i : ℕ) (s : SessionRow) (w v : World)
    → get SessionRow.id i w.sessions ≡ some s
    → is_unfinished s.status ≡ false
    → Reach w v
    → IsFinal i w.db v.db
closed_session-IsFinal i s w v found closed r =
    reach_keeps (IsFinal i w.db) (final_writes i w.db) w v r
      (record { session = s; found = found; closed = closed; verdict = λ b e. e; form = λ b e. e })
