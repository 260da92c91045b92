-- ===== src/Participations/Sessions/OneOpen.antt =====
-- A participation has at most one session that is still open, over every history.
use orbitplay_api.Prelude.{
  ℕ, ◌≤◌, ◌≡◌, inl, inr, Bool, true, false, some, List, [], ◌∷◌, ◌++◌, arith, any, count_if,
  any-count_if, count_if-append, count_if-update, get, update, Bool-cases, Option-cases, is_some,
}
use orbitplay_api.Errors.{Result, ok, err, conflict}
use orbitplay_api.Exec.{Exec, pure, fail, modify, gets, require, continue, ◌>>=◌, ◌>>◌}
use orbitplay_api.Exec.Keeps.{Keeps-modify, Keeps-bind, keeps_rules}
use orbitplay_api.Schema.Enums.{
  playing, in_review, ParticipationStatus, ConsentKind, SessionStatus, processing, is_open_session,
  is_unfinished,
}
use orbitplay_api.Schema.Rows.{DeviceEventRow, ParticipationRow, SessionRow}
use orbitplay_api.FormAnswers.{AnswerInput}
use orbitplay_api.World.{Db, World, invalidate_report_snapshots}
use orbitplay_api.World.Keeps.{DbKeeps, Keeps-transaction}
use orbitplay_api.Participations.Repository.{upsert_consent, set_participation_status}
use orbitplay_api.Participations.SessionQueries.{
  insert_device_event, is_open_of, new_session, start_session, update_session, mark_recording,
  mark_recording_row, close_session, finish_session, find_form_response, insert_form_response,
  is_startable_row,
}
use orbitplay_api.Workers.SessionValidate.{validated_status}
use orbitplay_api.Workers.Reconcile.{time_out}
use orbitplay_api.Participations.Invariants.{Keeps-fits_int4, Keeps-validate, Writes}
use orbitplay_api.Participations.Invariants.Steps.{Reach, reach_keeps}
use orbitplay_api.Participations.Sessions.Elsewhere.{
  Elsewhere, set_status-Elsewhere, reserve-Elsewhere, credit-Elsewhere,
}

abbrev pub HasOneOpen : Db → Type 0
HasOneOpen d = (p : ℕ) → count_if (is_open_of p) d.sessions ≤ 1

Keeps-Elsewhere :
    {A : Type 0} (m : Exec World A)
    → ((w : World) → Elsewhere w.db (m w).1.db)
    → DbKeeps HasOneOpen m
Keeps-Elsewhere m same = record { at = λ w h p. rw (same w).0 (h p) }

Keeps-status :
    (j : ℕ) (st : ParticipationStatus) → DbKeeps HasOneOpen (set_participation_status j st)
Keeps-status j st = Keeps-Elsewhere _ (set_status-Elsewhere j st)

-- A write that opens no session.
narrowed :
    (j p : ℕ) (f : SessionRow → SessionRow) (rows : List SessionRow)
    → ((s : SessionRow) → is_open_of p (f s) ≡ true → is_open_of p s ≡ true)
    → count_if (is_open_of p) (update SessionRow.id j f rows) ≤ count_if (is_open_of p) rows
unfolding update
narrowed j p f [] k = omega arith
narrowed j p f (x ∷ rows) k = ground (arith, narrowed j p f rows k, k x)

Keeps-narrowing :
    (j : ℕ) (f : SessionRow → SessionRow)
    → ((p : ℕ) (s : SessionRow) → is_open_of p (f s) ≡ true → is_open_of p s ≡ true)
    → DbKeeps HasOneOpen (update_session j f)
Keeps-narrowing j f k =
    Keeps-modify _ (λ w h p. omega (arith, narrowed j p f w.sessions (k p), h p))

Keeps-mark : (j : ℕ) → DbKeeps HasOneOpen (mark_recording j)
unfolding mark_recording
Keeps-mark j = Keeps-narrowing j mark_recording_row (λ p s h. ground arith)

judged_narrows :
    (b : Bool) (p : ℕ) (s : SessionRow)
    → is_open_of p (record s { status = validated_status b }) ≡ true
    → is_open_of p s ≡ true
judged_narrows true p s h = ground arith
judged_narrows false p s h = ground arith

-- The insert of `startSession`, where the participation has no open session.
added :
    (r : Result (Unit {0})) (v : World) (s : SessionRow)
    → count_if (is_open_of s.participation_id) v.sessions ≡ 0
    → HasOneOpen v.db
    → HasOneOpen
        (continue r
          (λ x.
            modify (λ w. record w { db = record w.db { sessions = w.sessions ++ s ∷ [] } })
            >> pure s)
          v).1.db
unfolding ◌>>=◌
added (ok x) v s none_open h =
    λ p. ground (arith, count_if-append (is_open_of p) v.sessions (s ∷ []), none_open, h p)
added (err e) v s none_open h = h

Keeps-start : (n p t o now : ℕ) → DbKeeps HasOneOpen (start_session n p t o now)
unfolding start_session ◌>>=◌
Keeps-start n p t o now = Keeps-transaction HasOneOpen _ (record {
  at = λ w h. elim (Bool-cases (any (is_open_of p) w.sessions)) [
    | inl y ↦ rw y h
    | inr free ↦ elim (Bool-cases (is_startable_row (get ParticipationRow.id p w.participations))) [
      | inr n' ↦ rw (free, n') h
      | inl y ↦
          rw (free, y)
            (added (set_participation_status p playing w).0 (set_participation_status p playing w).1
              (new_session n p t o now)
              (rw (set_status-Elsewhere p playing w).0
                (any-count_if (is_open_of p) w.sessions free))
              ((Keeps-status p playing).at w h))
    ]
  ];
})

-- The closing of a session that is not finished: it was open, and it still counts as open.
closed :
    (i ended d p : ℕ) (rows : List SessionRow) (s : SessionRow)
    → get SessionRow.id i rows ≡ some s
    → is_unfinished s.status ≡ true
    → count_if (is_open_of p) rows ≤ 1
    → count_if (is_open_of p) (update SessionRow.id i (close_session processing ended d) rows) ≤ 1
closed i ended d p rows s found u h = ground (
  arith,
  count_if-update SessionRow.id (is_open_of p) i (close_session processing ended d) rows s found,
  unfinished_open s.status u,
)
  where
    unfinished_open : (st : SessionStatus) → is_unfinished st ≡ true → is_open_session st ≡ true
    unfinished_open st h = ground arith

-- What follows the write to the session.
Keeps-handed :
    (i p : ℕ)
    → DbKeeps HasOneOpen (do
      set_participation_status p in_review
      updated ← gets (λ w. get SessionRow.id i w.sessions)
      require updated (conflict "Sessão já encerrada"))
Keeps-handed i p = search (keeps_rules, Keeps-status) depth 30

Keeps-finish : (i p ended d : ℕ) → DbKeeps HasOneOpen (finish_session i p ended d)
unfolding finish_session ◌>>=◌
Keeps-finish i p ended d = Keeps-transaction HasOneOpen _ (
    Keeps-bind _ _ (Keeps-fits_int4 HasOneOpen d) (λ x. record {
      at = λ w h. elim (Option-cases (get SessionRow.id i w.sessions)) [
        | inl gone ↦ rw gone h
        | inr (s, e) ↦ elim (Bool-cases (is_unfinished s.status)) [
          | inr n ↦ rw (e, n) h
          | inl y ↦
              rw (e, y)
                ((Keeps-handed i p).at
                  (record w {
                    db = record w.db {
                      sessions =
                          update SessionRow.id i (close_session processing ended d) w.sessions;
                    };
                  })
                  (λ q. closed i ended d q w.sessions s e y (h q)))
        ]
      ];
    }))

Keeps-form :
    (n s now : ℕ) (answers : List AnswerInput)
    → DbKeeps HasOneOpen (insert_form_response n s now answers)
unfolding insert_form_response fail
Keeps-form n s now answers = record {
  at = λ w h. elim (Bool-cases (is_some (find_form_response s w))) [
    | inl e ↦ rw e h
    | inr e ↦ rw e h
  ];
}

Keeps-invalidate : (j : ℕ) → DbKeeps HasOneOpen (invalidate_report_snapshots j)
unfolding invalidate_report_snapshots
Keeps-invalidate j = Keeps-modify _ (λ w h. h)

Keeps-consent :
    (j : ℕ) (given : List (ConsentKind × Bool)) (now : ℕ)
    → DbKeeps HasOneOpen (upsert_consent j given now)
unfolding upsert_consent
Keeps-consent j given now = record { at = λ w h. h }

Keeps-device : (e : DeviceEventRow) → DbKeeps HasOneOpen (insert_device_event e)
unfolding insert_device_event
Keeps-device e = Keeps-bind _ _ (Keeps-fits_int4 HasOneOpen _) (λ x. Keeps-modify _ (λ w h. h))

open_writes : Writes HasOneOpen
open_writes = record {
  invalidate = Keeps-invalidate;
  set_status = Keeps-status;
  reserve = λ now t u n. Keeps-Elsewhere _ (reserve-Elsewhere now t u n);
  consent = Keeps-consent;
  device = Keeps-device;
  form = Keeps-form;
  start = Keeps-start;
  mark = Keeps-mark;
  finish = Keeps-finish;
  expire = λ j now. Keeps-narrowing j (time_out now) (λ p s h. ground arith);
  validate = λ j clock.
      Keeps-validate HasOneOpen Keeps-invalidate Keeps-status
        (λ j b. Keeps-narrowing j _ (judged_narrows b)) (λ v. Keeps-modify _ (λ w h. h)) j clock
        (λ s. Keeps-Elsewhere _ (credit-Elsewhere s));
  builds = λ f. Keeps-modify _ (λ w h. h);
  build_steps = λ f. Keeps-modify _ (λ w h. h);
  recordings = λ f. Keeps-modify _ (λ w h. h);
}

-- Whatever players and workers do, and in whatever order, a participation that has at most one
-- session which is neither completed nor invalidated never gets a second one.
pub one_open_session :
    (w v : World) → HasOneOpen w.db → Reach w v → (p : ℕ) → count_if (is_open_of p) v.sessions ≤ 1
one_open_session w v h r p = reach_keeps HasOneOpen open_writes w v r h p
