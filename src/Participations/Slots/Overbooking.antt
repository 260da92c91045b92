-- ===== src/Participations/Slots/Overbooking.antt =====
-- Whatever players and workers do, a test is never overbooked.
use orbitplay_api.Prelude.{
  is_some, any, ℕ, ◌≤◌, ◌≡◌, inl, inr, Bool, Option, none, some, List, get, count_if, subst,
  Bool-cases,
}
use orbitplay_api.Exec.{pure, fail}
use orbitplay_api.Exec.Keeps.{Keeps-modify, Keeps-bind}
use orbitplay_api.Schema.Enums.{ConsentKind}
use orbitplay_api.Schema.Rows.{DeviceEventRow, TestRow, SessionRow, XpEventRow, ParticipationRow}
use orbitplay_api.FormAnswers.{AnswerInput}
use orbitplay_api.World.{World}
use orbitplay_api.World.Keeps.{DbKeeps}
use orbitplay_api.Participations.Repository.{holds_slot, upsert_consent}
use orbitplay_api.Participations.SessionQueries.{
  find_form_response, insert_device_event, insert_form_response, update_session, mark_recording,
}
use orbitplay_api.Workers.SessionValidate.{
  same_source, rewards, insert_xp_event, credit_user, credit_session_xp,
}
use orbitplay_api.Participations.Invariants.{
  Keeps-fits_int4, Keeps-validate, Writes, Keeps-start_session, Keeps-finish_session,
}
use orbitplay_api.Participations.Invariants.Steps.{Reach, reach_keeps}
use orbitplay_api.Participations.Slots.{of_test, SlotsOf}
use orbitplay_api.Participations.Slots.Kept.{Keeps-set_status, Keeps-reserve, Keeps-invalidate}

Keeps-consent :
    (id : ℕ) (given : List (ConsentKind × Bool)) (now : ℕ)
    → DbKeeps SlotsOf (upsert_consent id given now)
unfolding upsert_consent
Keeps-consent id given now = record { at = λ w h. h }

Keeps-form :
    (new_id session_id now : ℕ) (answers : List AnswerInput)
    → DbKeeps SlotsOf (insert_form_response new_id session_id now answers)
unfolding insert_form_response fail
Keeps-form new_id session_id now answers = record {
  at = λ w h. elim (Bool-cases (is_some (find_form_response session_id w))) [
    | inl e ↦ rw e h
    | inr e ↦ rw e h
  ];
}

Keeps-sessions : (i : ℕ) (f : SessionRow → SessionRow) → DbKeeps SlotsOf (update_session i f)
Keeps-sessions i f = Keeps-modify _ (λ w h. h)

Keeps-mark : (i : ℕ) → DbKeeps SlotsOf (mark_recording i)
unfolding mark_recording
Keeps-mark i = Keeps-modify _ (λ w h. h)

Keeps-xp : (e : XpEventRow) → DbKeeps SlotsOf (insert_xp_event e)
unfolding pure
Keeps-xp e = record {
  at = λ w h. elim (Bool-cases (any (same_source e.user_id e.source_id) w.xp_events)) [
    | inl y ↦ rw y h
    | inr n ↦ rw n h
  ];
}

Keeps-credit_user :
    (p : Option ParticipationRow) (s : SessionRow) → DbKeeps SlotsOf (credit_user p s)
unfolding pure
Keeps-credit_user none s = record { at = λ w h. h }
Keeps-credit_user (some p) s = record {
  at = λ w h. elim (Bool-cases (any (rewards p.user_id s.test_id w.sessions) w.xp_events)) [
    | inl y ↦ rw y h
    | inr n ↦ rw n ((Keeps-xp _).at w h)
  ];
}

Keeps-credit : (s : SessionRow) → DbKeeps SlotsOf (credit_session_xp s)
unfolding credit_session_xp
Keeps-credit s = record { at = λ w h. (Keeps-credit_user _ s).at w h }

Keeps-device : (e : DeviceEventRow) → DbKeeps SlotsOf (insert_device_event e)
unfolding insert_device_event
Keeps-device e = Keeps-bind _ _ (Keeps-fits_int4 SlotsOf _) (λ x. Keeps-modify _ (λ w h. h))

pub slots_writes : Writes SlotsOf
slots_writes = record {
  invalidate = Keeps-invalidate;
  set_status = Keeps-set_status;
  reserve = Keeps-reserve;
  consent = Keeps-consent;
  device = Keeps-device;
  form = Keeps-form;
  start = λ n p t o now.
      Keeps-start_session SlotsOf Keeps-set_status n p t o now (λ s. Keeps-modify _ (λ w h. h));
  mark = Keeps-mark;
  finish = λ i p e d.
      Keeps-finish_session SlotsOf Keeps-set_status i p e d (λ j e k. Keeps-sessions j _);
  expire = λ i now. Keeps-sessions i _;
  validate = λ i clock.
      Keeps-validate SlotsOf Keeps-invalidate Keeps-set_status (λ i b. Keeps-sessions i _)
        (λ v. Keeps-modify _ (λ w h. h)) i clock Keeps-credit;
  builds = λ f. Keeps-modify _ (λ w h. h);
  build_steps = λ f. Keeps-modify _ (λ w h. h);
  recordings = λ f. Keeps-modify _ (λ w h. h);
}

-- After any history of handler and worker steps, in any order, from a state whose slots are sound,
-- a test has at most as many participations as it has slots, and a player holds at most one active
-- participation of a test.
pub never_overbooked :
    (w v : World)
    → SlotsOf w.db
    → Reach w v
    → ((i : ℕ) (t : TestRow)
        → get TestRow.id i v.tests ≡ some t
        → count_if (of_test i) v.participations ≤ t.slots_total)
      × ((i u : ℕ) → count_if (holds_slot i u) v.participations ≤ 1)
never_overbooked w v h r =
    let k = reach_keeps SlotsOf slots_writes w v r h in
    (
      (λ i t e. subst (λ n. n ≤ t.slots_total) (k.at_test i t e).counted (k.at_test i t e).fits),
      k.one_active,
    )
