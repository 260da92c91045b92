-- ===== src/Workers/Reconcile/Alive.antt =====
-- The sweep leaves sessions alone whose client still sends heartbeats.
use orbitplay_api.Prelude.{
  ℕ, ◌≡◌, inl, inr, true, false, some, List, [], ◌∷◌, arith, contains, get, get-update, Bool-cases,
  ◌==◌,
}
use orbitplay_api.Errors.{Result, ok, err}
use orbitplay_api.Exec.{pure, continue, ◌>>=◌}
use orbitplay_api.Exec.Keeps.{Keeps, Keeps-pure, Keeps-bind}
use orbitplay_api.Schema.Rows.{SessionRow}
use orbitplay_api.Queue.{EnsureJobOutcome, session_validate_job_id}
use orbitplay_api.World.{World, ensure_enqueued}
use orbitplay_api.Participations.SessionQueries.{update_session}
use orbitplay_api.Workers.Reconcile.{
  for_each, time_out, reconcile_open_session, reconcile_timed_out_sessions,
}

-- The session is as given, and its heartbeat key lives.
record IsAlive (i : ℕ) (s : SessionRow) (w : World) : Type 0 where
  stored : get SessionRow.id i w.sessions ≡ some s
  beats : contains i w.heartbeats ≡ true

module _ (now i : ℕ) (s : SessionRow) where
  settled :
      (r : Result EnsureJobOutcome) (w : World)
      → IsAlive i s w
      → IsAlive i s (continue r (λ o. pure tt) w).1
  unfolding pure
  settled (ok o) w h = h
  settled (err e) w h = h

  Keeps-open_session : (x : SessionRow) → Keeps (IsAlive i s) (reconcile_open_session now x)
  unfolding reconcile_open_session ◌>>=◌ ensure_enqueued
  Keeps-open_session x = record {
    at = λ w h. elim (Bool-cases (contains x.id w.heartbeats)) [
      | inl y ↦ rw y h
      | inr n ↦ rw n (
          settled
            (ensure_enqueued (session_validate_job_id x.id)
              (update_session x.id (time_out now) w).1).0
            (ensure_enqueued (session_validate_job_id x.id)
              (update_session x.id (time_out now) w).1).1
            (record {
              stored = ground (
                arith,
                get-update SessionRow.id x.id i (time_out now) w.sessions (λ r. ground arith),
                h.stored,
                h.beats,
                other w.heartbeats x.id h.beats n,
              );
              beats = h.beats;
            }))
    ];
  }
    where
      other :
          (keys : List ℕ) (j : ℕ)
          → contains i keys ≡ true
          → contains j keys ≡ false
          → (j == i) ≡ false
      other keys j y n = elim (Bool-cases (j == i)) [
        | inl e ↦ let same : j ≡ i = ground arith in ground (arith, y, n, same)
        | inr e ↦ e
      ]

  Keeps-each :
      (xs : List SessionRow) → Keeps (IsAlive i s) (for_each (reconcile_open_session now) xs)
  Keeps-each [] = Keeps-pure tt
  Keeps-each (x ∷ xs) = Keeps-bind _ _ (Keeps-open_session x) (λ t. Keeps-each xs)

-- The sweep over timed-out sessions leaves a session as it is whose heartbeat key lives.
pub alive_session_untouched :
    (now i : ℕ) (s : SessionRow) (w : World)
    → get SessionRow.id i w.sessions ≡ some s
    → contains i w.heartbeats ≡ true
    → get SessionRow.id i (reconcile_timed_out_sessions now w).1.sessions ≡ some s
unfolding reconcile_timed_out_sessions ◌>>=◌
alive_session_untouched now i s w e b =
    ((Keeps-each now i s _).at w (record { stored = e; beats = b })).stored
