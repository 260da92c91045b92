-- ===== src/Workers/SessionValidate/Rewards/Always.antt =====
-- No player is rewarded twice for a test, whatever players and workers do.
use orbitplay_api.Prelude.{
  is_some, ℕ, ◌≤◌, ◌≡◌, refl, inl, inr, Bool, List, arith, Bool-cases, count_if,
}
use orbitplay_api.Exec.{fail}
use orbitplay_api.Exec.Keeps.{Keeps-modify, Keeps-bind}
use orbitplay_api.Schema.Enums.{ConsentKind, processing}
use orbitplay_api.Schema.Rows.{SessionRow, DeviceEventRow}
use orbitplay_api.FormAnswers.{AnswerInput}
use orbitplay_api.World.{World}
use orbitplay_api.World.Keeps.{DbKeeps}
use orbitplay_api.Participations.Repository.{upsert_consent, reserve_participation}
use orbitplay_api.Participations.SessionQueries.{
  insert_device_event, find_form_response, insert_form_response, update_session, close_session,
  mark_recording, mark_recording_row,
}
use orbitplay_api.Participations.Invariants.{
  Writes, Keeps-fits_int4, Keeps-start_session, Keeps-finish_session,
}
use orbitplay_api.Participations.Invariants.Steps.{Reach, reach_keeps}
use orbitplay_api.Participations.Slots.{reserve_outcome}
use orbitplay_api.Workers.Reconcile.{time_out}
use orbitplay_api.Workers.SessionValidate.{rewards}
use orbitplay_api.Workers.SessionValidate.Rewards.{
  IsRewarded, Rewarded, update-IsRewarded, append-IsRewarded, Keeps-status, Keeps-snapshots,
  Keeps-validate,
}

Keeps-session :
    (j : ℕ) (f : SessionRow → SessionRow)
    → ((r : SessionRow) → (f r).id ≡ r.id)
    → ((r : SessionRow) → (f r).test_id ≡ r.test_id)
    → DbKeeps Rewarded (update_session j f)
Keeps-session j f same test =
    Keeps-modify _ (λ w h. update-IsRewarded f same test j w.sessions w.xp_events h)

Keeps-mark : (j : ℕ) → DbKeeps Rewarded (mark_recording j)
unfolding mark_recording
Keeps-mark j = Keeps-session j mark_recording_row (λ r. ground arith) (λ r. ground arith)

Keeps-reserve : (now t u n : ℕ) → DbKeeps Rewarded (reserve_participation now t u n)
Keeps-reserve now t u n = record {
  at = λ w h. elim (reserve_outcome now t u n w) [
    | inl (p, e, r) ↦ rw r.after h
    | inr (inl (m, e, un)) ↦ rw un h
    | inr (inr (e, un)) ↦ rw un h
  ];
}

Keeps-form :
    (n s now : ℕ) (answers : List AnswerInput)
    → DbKeeps Rewarded (insert_form_response n s now answers)
unfolding insert_form_response fail
Keeps-form n s now answers = record {
  at = λ w h. elim (Bool-cases (is_some (find_form_response s w))) [
    | inl e ↦ rw e h
    | inr e ↦ rw e h
  ];
}

Keeps-consent :
    (j : ℕ) (given : List (ConsentKind × Bool)) (now : ℕ)
    → DbKeeps Rewarded (upsert_consent j given now)
unfolding upsert_consent
Keeps-consent j given now = record { at = λ w h. h }

Keeps-device : (e : DeviceEventRow) → DbKeeps Rewarded (insert_device_event e)
unfolding insert_device_event
Keeps-device e = Keeps-bind _ _ (Keeps-fits_int4 Rewarded e.t_ms) (λ x. Keeps-modify _ (λ w h. h))

Rewarded-writes : Writes Rewarded
Rewarded-writes = record {
  invalidate = Keeps-snapshots IsRewarded;
  set_status = Keeps-status IsRewarded;
  reserve = Keeps-reserve;
  consent = Keeps-consent;
  device = Keeps-device;
  form = Keeps-form;
  start = λ n p t o now.
      Keeps-start_session Rewarded (Keeps-status IsRewarded) n p t o now
        (λ s. Keeps-modify _ (λ w h. append-IsRewarded s w.sessions w.xp_events h));
  mark = Keeps-mark;
  finish = λ i p e d.
      Keeps-finish_session Rewarded (Keeps-status IsRewarded) i p e d
        (λ j e k. Keeps-session j (close_session processing e k) (λ r. refl) (λ r. refl));
  expire = λ i now. Keeps-session i (time_out now) (λ r. ground arith) (λ r. ground arith);
  validate = Keeps-validate;
  builds = λ f. Keeps-modify _ (λ w h. h);
  build_steps = λ f. Keeps-modify _ (λ w h. h);
  recordings = λ f. Keeps-modify _ (λ w h. h);
}

-- After any history of handler and worker steps, in any order, from a state in which each XP event is
-- for a session of the table and no player has two of them for sessions of one test, no player has two
-- XP events for sessions of one test, however many sessions of it were played and validated.
pub rewarded_at_most_once :
    (w v : World)
    → IsRewarded w.sessions w.xp_events
    → Reach w v
    → (u t : ℕ) → count_if (rewards u t v.sessions) v.xp_events ≤ 1
rewarded_at_most_once w v h r = (reach_keeps Rewarded Rewarded-writes w v r h).once
