-- ===== src/Participations/Sessions/Finish.antt =====
-- What ending a session does: once, with a bounded duration, and with a job to validate it.
use orbitplay_api.Prelude.{
  inl, inr, leb, Bool-cases, if◌then◌else◌, ap, ℕ, ◌-◌, ◌≤◌, ◌≡◌, refl, true, false, some, List,
  arith, ltb, count_if, count_if-update, get, get-key, update, get-update,
}
use orbitplay_api.Uuid.{uuid}
use orbitplay_api.Errors.{Failure, ok, err, app, conflict}
use orbitplay_api.Exec.{◌>>=◌, ensure}
use orbitplay_api.Schema.Enums.{in_review, processing, is_unfinished, is_active}
use orbitplay_api.Schema.Rows.{SessionRow, ParticipationRow}
use orbitplay_api.Queue.{session_validate_job_id, ensure_job_enqueued}
use orbitplay_api.Queue.Ensure.{IsEnsured, ensure_answers, ensure_settles}
use orbitplay_api.World.{World, Clock, transaction, invalidate_report_snapshots, ensure_enqueued}
use orbitplay_api.Participations.Repository.{holds_slot, set_status}
use orbitplay_api.Participations.SessionQueries.{
  session_for_user, finish_session, close_session, max_int4, out_of_range,
}
use orbitplay_api.Participations.Sessions.{finish, duration_of}

-- A session of the player, with its participation.
pub record Owned (i user_id : ℕ) (w : World) (s : SessionRow) (p : ParticipationRow) : Type 0 where
  pub session : get SessionRow.id i w.sessions ≡ some s
  pub participation : get ParticipationRow.id s.participation_id w.participations ≡ some p
  pub owner : p.user_id ≡ user_id

Owned-session :
    (i user_id : ℕ) (w : World) (s : SessionRow) (p : ParticipationRow)
    → Owned i user_id w s p
    → session_for_user (uuid i) user_id w ≡ some s
unfolding session_for_user
Owned-session i user_id w s p o = ground (arith, o.session, o.participation, o.owner)

-- The handed-over participation still is the only active one of its pair.
handed_over :
    (id : ℕ) (rows : List ParticipationRow) (p : ParticipationRow)
    → get ParticipationRow.id id rows ≡ some p
    → is_active p.status ≡ true
    → count_if (holds_slot p.test_id p.user_id) rows ≤ 1
    → ltb 1 (
        count_if
          (holds_slot p.test_id p.user_id)
          (update ParticipationRow.id id (set_status in_review) rows))
      ≡ false
handed_over id rows p found act one = ground (
  arith,
  count_if-update ParticipationRow.id (holds_slot p.test_id p.user_id) id (set_status in_review)
      rows p found,
  one,
  act,
)

-- The ending of a session that is not closed: the row that is stored and returned.
abbrev pub ended : ℕ → Clock → SessionRow → SessionRow
ended t_ms clock s = close_session processing clock.now (duration_of t_ms s.started_at clock.now) s

-- What a request to end a session is told that is closed already: that, or that its duration is more
-- than the column holds.
abbrev pub refusal : ℕ → Failure
refusal d = if leb d max_int4 then app (conflict "Sessão já encerrada") else out_of_range

-- Ending a closed session is refused and changes nothing.
pub finish_closed :
    (i user_id t_ms : ℕ) (clock : Clock) (w : World) (s : SessionRow) (p : ParticipationRow)
    → Owned i user_id w s p
    → is_unfinished s.status ≡ false
    → finish (uuid i) user_id t_ms clock w
      ≡ (err (refusal (duration_of t_ms s.started_at clock.now)), w)
unfolding finish finish_session transaction ◌>>=◌ ensure
finish_closed i user_id t_ms clock w s p o closed =
    let key : s.id ≡ i = get-key SessionRow.id i w.sessions s o.session in
    elim (Bool-cases (leb (duration_of t_ms s.started_at clock.now) max_int4)) [
      | inl short ↦ rw (Owned-session i user_id w s p o, key, short, o.session, closed) refl
      | inr long ↦ rw (Owned-session i user_id w s p o, long) refl
    ]

-- The state that the transaction of `finish` leaves.
abbrev ended_world : ℕ → ℕ → Clock → SessionRow → World → World
ended_world i t_ms clock s w = record w {
  db = record w.db {
    sessions =
        update SessionRow.id i
          (close_session processing clock.now (duration_of t_ms s.started_at clock.now)) w.sessions;
    participations =
        update ParticipationRow.id s.participation_id (set_status in_review) w.participations;
  };
}

ends :
    (i user_id t_ms : ℕ) (clock : Clock) (w : World) (s : SessionRow) (p : ParticipationRow)
    → Owned i user_id w s p
    → is_unfinished s.status ≡ true
    → is_active p.status ≡ true
    → count_if (holds_slot p.test_id p.user_id) w.participations ≤ 1
    → duration_of t_ms s.started_at clock.now ≤ max_int4
    → finish_session i s.participation_id clock.now (duration_of t_ms s.started_at clock.now) w
      ≡ (ok (ended t_ms clock s), ended_world i t_ms clock s w)
unfolding finish_session transaction ◌>>=◌
ends i user_id t_ms clock w s p o unfinished act one short =
    let once = handed_over s.participation_id w.participations p o.participation act one in
    let stored : get SessionRow.id i (
          update SessionRow.id i
            (close_session processing clock.now (duration_of t_ms s.started_at clock.now))
            w.sessions)
        ≡ some (ended t_ms clock s) =
      ground (
        arith,
        get-update SessionRow.id i i
            (close_session processing clock.now (duration_of t_ms s.started_at clock.now))
            w.sessions (λ r. refl),
        o.session,
      ) in
    let fits : leb (duration_of t_ms s.started_at clock.now) max_int4 ≡ true = ground arith in
    rw (fits, o.session, unfinished, o.participation, once, stored) refl

-- What `finish` returns, and the sessions, participations and queue that it leaves.
finish_result :
    (i user_id t_ms : ℕ) (clock : Clock) (w : World) (s : SessionRow) (p : ParticipationRow)
    → Owned i user_id w s p
    → is_unfinished s.status ≡ true
    → is_active p.status ≡ true
    → count_if (holds_slot p.test_id p.user_id) w.participations ≤ 1
    → duration_of t_ms s.started_at clock.now ≤ max_int4
    → w.queue.in_reach ≡ true
    → ((finish (uuid i) user_id t_ms clock w).0 ≡ ok (ended t_ms clock s))
      × ((finish (uuid i) user_id t_ms clock w).1.sessions
          ≡ (ended_world i t_ms clock s w).sessions)
      × ((finish (uuid i) user_id t_ms clock w).1.participations
          ≡ (ended_world i t_ms clock s w).participations)
      × ((finish (uuid i) user_id t_ms clock w).1.queue
          ≡ (ensure_job_enqueued (session_validate_job_id i) w.queue).1)
unfolding finish ◌>>=◌ invalidate_report_snapshots ensure_enqueued
finish_result i user_id t_ms clock w s p o unfinished act one short reach =
    let key : s.id ≡ i = get-key SessionRow.id i w.sessions s o.session in
    rw
      (
        Owned-session i user_id w s p o,
        key,
        ends i user_id t_ms clock w s p o unfinished act one short,
        (ensure_answers (session_validate_job_id i) w.queue reach).1,
      )
      (ap (λ n. ok (record (ended t_ms clock s) { id = n })) key, refl, refl, refl)

-- The player who ends an open session of an active participation, holding no second active
-- participation of the test, with the queue in reach and a duration that fits its column, gets it
-- back closed, with a duration of at most what the client claims and at most the time since its
-- start. The session is stored so, its participation is in review, and the job that validates the
-- session is in the queue, to run unless it has failed its allowed number of times. A second end, at
-- any later time, is refused and changes nothing: with a conflict, or where its own duration does not
-- fit the column with an error of the database.
pub finish_ends_once :
    (i user_id t_ms : ℕ) (clock : Clock) (w : World) (s : SessionRow) (p : ParticipationRow)
    → Owned i user_id w s p
    → is_unfinished s.status ≡ true
    → is_active p.status ≡ true
    → count_if (holds_slot p.test_id p.user_id) w.participations ≤ 1
    → duration_of t_ms s.started_at clock.now ≤ max_int4
    → w.queue.in_reach ≡ true
    → let v = (finish (uuid i) user_id t_ms clock w).1 in
      ((finish (uuid i) user_id t_ms clock w).0 ≡ ok (ended t_ms clock s))
      × (duration_of t_ms s.started_at clock.now ≤ t_ms)
      × (duration_of t_ms s.started_at clock.now ≤ clock.now - s.started_at)
      × (get SessionRow.id i v.sessions ≡ some (ended t_ms clock s))
      × (get ParticipationRow.id s.participation_id v.participations
          ≡ some (set_status in_review p))
      × IsEnsured (session_validate_job_id i) w.queue v.queue
      × ((t_ms' : ℕ) (later : Clock)
          → finish (uuid i) user_id t_ms' later v
            ≡ (err (refusal (duration_of t_ms' s.started_at later.now)), v))
finish_ends_once i user_id t_ms clock w s p o unfinished act one short reach =
    let r = finish_result i user_id t_ms clock w s p o unfinished act one short reach in
    let closed : SessionRow → SessionRow =
      close_session processing clock.now (duration_of t_ms s.started_at clock.now) in
    let again : Owned i user_id (finish (uuid i) user_id t_ms clock w).1 (ended t_ms clock s)
        (set_status in_review p) =
      record {
        session =
            rw r.1 (
              ground
                (arith, get-update SessionRow.id i i closed w.sessions (λ x. refl), o.session));
        participation = rw r.2 (
            ground (
              arith,
              get-update ParticipationRow.id s.participation_id s.participation_id
                  (set_status in_review) w.participations (λ x. refl),
              o.participation,
            ));
        owner = o.owner;
      } in
    (
      r.0,
      ground arith,
      ground arith,
      again.session,
      again.participation,
      rw r.3 (ensure_settles (session_validate_job_id i) w.queue reach).0,
      λ t_ms' later. finish_closed i user_id t_ms' later _ _ _ again refl,
    )
