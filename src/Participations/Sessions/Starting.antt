-- ===== src/Participations/Sessions/Starting.antt =====
-- When a session starts.
use orbitplay_api.Prelude.{
  ◌≤◌, count_if-update, ℕ, ◌≡◌, refl, ◌⊎◌, inl, inr, true, false, Option, none, some, [], ◌∷◌, ◌++◌,
  arith, any, all, get, update, ltb, count_if, Bool-cases, Option-cases,
}
use orbitplay_api.Uuid.{Text}
use orbitplay_api.Errors.{Failure, Result, ok, err, app, conflict, not_found_default}
use orbitplay_api.Exec.{◌>>=◌}
use orbitplay_api.Schema.Enums.{
  ParticipationStatus, playing, screen_recording, is_startable, is_active,
}
use orbitplay_api.Schema.Rows.{TestRow, BuildRow, ParticipationRow}
use orbitplay_api.PlayerCta.{ended_by}
use orbitplay_api.TestModels.{required_consents}
use orbitplay_api.World.{World, Clock, transaction, invalidate_report_snapshots}
use orbitplay_api.Participations.Repository.{
  get_test, participation_for_user, find_consent, set_status, holds_slot,
}
use orbitplay_api.Participations.SessionQueries.{
  is_open_of, is_startable_row, new_session, start_session,
}
use orbitplay_api.Participations.Sessions.{any_kind, start, is_playable, is_validated, has_consent}

-- What a start needs: the player's own participation, not played and without an open session, of a
-- test that is playable and not over, whose build is validated, and every consent that it requires.
pub record Startable (id : Text) (user_id : ℕ) (clock : Clock) (w : World) : Type 0 where
  pub participation : ParticipationRow
  pub test : TestRow
  pub owned : participation_for_user id user_id w ≡ some participation
  pub found : get_test participation.test_id w ≡ some test
  pub playable : is_playable test.status ≡ true
  pub running : ended_by test.ends_at clock.now ≡ false
  pub built : is_validated (get BuildRow.test_id test.id w.builds) ≡ true
  pub consented :
      all (has_consent (find_consent participation.id w)) (required_consents test.model_key) ≡ true
  pub not_played :
      is_startable_row (get ParticipationRow.id participation.id w.participations) ≡ true
  pub none_open : any (is_open_of participation.id) w.sessions ≡ false

-- A request that fails and changes nothing.
pub record Unchanged {A : Type 0} (w : World) (r : Result A × World) : Type 0 where
  pub failure : Failure
  pub failed : r.0 ≡ err failure
  pub same : r.1 ≡ w

refused : {A : Type 0} (w : World) (e : Failure) → Unchanged {A = A} w (err e, w)
refused w e = record { failure = e; failed = refl; same = refl }

session_result :
    (n p t o now : ℕ) (w : World)
    → ((e : Failure) × (start_session n p t o now w ≡ (err e, w)))
      ⊎ ((any (is_open_of p) w.sessions ≡ false)
          × (is_startable_row (get ParticipationRow.id p w.participations) ≡ true))
unfolding start_session transaction ◌>>=◌
session_result n p t o now w = elim (Bool-cases (any (is_open_of p) w.sessions)) [
  | inl y ↦ inl (app (conflict "Já existe uma sessão ativa para esta participação"), rw y refl)
  | inr free ↦ elim (Bool-cases (is_startable_row (get ParticipationRow.id p w.participations))) [
    | inr m ↦ inl (app (conflict "Esta participação já foi jogada"), rw (free, m) refl)
    | inl y ↦ inr (free, y)
  ]
]

-- A start either fails and changes nothing, or everything that a start needs holds.
pub start_needs :
    (id : Text) (user_id : ℕ) (clock : Clock) (new_id : ℕ) (w : World)
    → Unchanged w (start id user_id clock new_id w) ⊎ Startable id user_id clock w
unfolding start ◌>>=◌
start_needs id user_id clock new_id w = elim (Option-cases (participation_for_user id user_id w)) [
  | inl gone ↦ inl (rw gone (refused w (app not_found_default)))
  | inr (p, own) ↦ elim (Option-cases (get_test p.test_id w)) [
    | inl lost ↦ inl (rw (own, lost) (refused w (app not_found_default)))
    | inr (t, e) ↦ elim (Bool-cases (is_playable t.status)) [
      | inr x ↦
          inl
            (rw (own, e, x) (refused w (app (conflict "Teste não está aberto para participação"))))
      | inl a ↦ elim (Bool-cases (ended_by t.ends_at clock.now)) [
        | inl x ↦ inl (rw (own, e, a, x) (refused w (app (conflict "Teste expirado"))))
        | inr b ↦ elim (Bool-cases (is_validated (get BuildRow.test_id t.id w.builds))) [
          | inr x ↦ inl (rw (own, e, a, b, x) (refused w (app (conflict "Build não validada"))))
          | inl c ↦ checked p t own e a b c
        ]
      ]
    ]
  ]
]
  where
    checked :
        (p : ParticipationRow) (t : TestRow)
        → participation_for_user id user_id w ≡ some p
        → get_test p.test_id w ≡ some t
        → is_playable t.status ≡ true
        → ended_by t.ends_at clock.now ≡ false
        → is_validated (get BuildRow.test_id t.id w.builds) ≡ true
        → Unchanged w (start id user_id clock new_id w) ⊎ Startable id user_id clock w
    checked p t own e a b c =
        elim (Bool-cases
          (all (has_consent (find_consent p.id w)) (required_consents t.model_key))) [
            | inr x ↦ inl (
                rw (own, e, a, b, c, x)
                  (refused w (app (conflict "Consentimento obrigatório ausente"))))
            | inl d ↦ elim (session_result new_id p.id t.id t.organization_id clock.now w) [
              | inl (f, r) ↦ inl (rw (own, e, a, b, c, d, r) (refused w f))
              | inr (free, y) ↦ inr (record {
                participation = p;
                test = t;
                owned = own;
                found = e;
                playable = a;
                running = b;
                built = c;
                consented = d;
                not_played = y;
                none_open = free;
              })
            ]
          ]

startable_active : (st : ParticipationStatus) → is_startable st ≡ true → is_active st ≡ true
startable_active st h = ground arith

-- The transaction of a start in a state that permits it.
session_started :
    (n p t o now : ℕ) (w : World) (q : ParticipationRow)
    → get ParticipationRow.id p w.participations ≡ some q
    → is_startable q.status ≡ true
    → any (is_open_of p) w.sessions ≡ false
    → count_if (holds_slot q.test_id q.user_id) w.participations ≤ 1
    → start_session n p t o now w ≡ (
      ok (new_session n p t o now),
      record w {
        db = record w.db {
          participations = update ParticipationRow.id p (set_status playing) w.participations;
          sessions = w.sessions ++ new_session n p t o now ∷ [];
        };
      },
    )
unfolding start_session transaction ◌>>=◌
session_started n p t o now w q e y free one =
    let fits : ltb 1 (
          count_if (holds_slot q.test_id q.user_id)
            (update ParticipationRow.id p (set_status playing) w.participations))
        ≡ false =
      ground (
        arith,
        count_if-update ParticipationRow.id (holds_slot q.test_id q.user_id) p (set_status playing)
            w.participations q e,
        one,
        startable_active q.status y,
      ) in
    rw (free, e, y, e, fits) refl

startable_row :
    (o : Option ParticipationRow)
    → is_startable_row o ≡ true
    → (q : ParticipationRow) × (o ≡ some q) × (is_startable q.status ≡ true)
startable_row none h = absurd (ground arith)
startable_row (some q) h = (q, refl, h)

-- Where everything that a start needs holds, and no player has two active participations of a test,
-- the start succeeds: it returns the new session, which begins now and is stored, and every other
-- session stays.
pub starts_session :
    (id : Text) (user_id : ℕ) (clock : Clock) (new_id : ℕ) (w : World)
    (s : Startable id user_id clock w)
    → ((i u : ℕ) → count_if (holds_slot i u) w.participations ≤ 1)
    → ((start id user_id clock new_id w).0
        ≡ ok (record {
          session_id = new_id;
          started_at = clock.now;
          recording_required = any_kind screen_recording (required_consents s.test.model_key);
        }))
      × ((start id user_id clock new_id w).1.sessions
          ≡ w.sessions
            ++ new_session new_id s.participation.id s.test.id s.test.organization_id clock.now
              ∷ [])
unfolding start ◌>>=◌ invalidate_report_snapshots
starts_session id user_id clock new_id w s one =
    let (q, e, y) =
      startable_row (get ParticipationRow.id s.participation.id w.participations) s.not_played in
    let r =
      session_started new_id s.participation.id s.test.id s.test.organization_id clock.now w q e y
        s.none_open (one q.test_id q.user_id) in
    rw (s.owned, s.found, s.playable, s.running, s.built, s.consented, r) (refl, refl)
