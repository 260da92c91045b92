-- ===== src/Participations/Invariants/Steps.antt =====
-- Histories: the steps by which players, the clock and the workers change participations and
-- sessions, in any order, and what every history keeps.
use orbitplay_api.Prelude.{ℕ, Bool, List}
use orbitplay_api.Uuid.{Text}
use orbitplay_api.Schema.Enums.{ConsentKind}
use orbitplay_api.FormAnswers.{AnswerInput}
use orbitplay_api.World.{Db, World, Clock, without}
use orbitplay_api.Participations.Repository.{reserve_participation}
use orbitplay_api.Participations.Service.{join, record_consents}
use orbitplay_api.Participations.Sessions.{
  start, record_device_event, heartbeat, finish, submit_form_response,
}
use orbitplay_api.Workers.SessionValidate.{process_session_validate}
use orbitplay_api.Workers.BuildValidate.{Deps, process_build_validate}
use orbitplay_api.Workers.Reconcile.{process_reconcile_stuck_jobs}
use orbitplay_api.Participations.Invariants.{
  Writes, Keeps-join, Keeps-start, Keeps-heartbeat, Keeps-finish, Keeps-device_event,
  Keeps-consents, Keeps-submit, Keeps-reconcile,
}
use orbitplay_api.Participations.Invariants.Builds.{Keeps-build_validate}

-- One step: a request that a handler serves, the transaction of a join by itself (whose checks ran
-- in an earlier state), a job, or the end of a heartbeat key's life.
pub data Step : World → World → Type 0 where
  joins : (t : Text) (u : ℕ) (c : Clock) (n : ℕ) (w : World) → Step w (join t u c n w).1
  reserves : (now t u n : ℕ) (w : World) → Step w (reserve_participation now t u n w).1
  consents :
      (p : Text) (u : ℕ) (given : List (ConsentKind × Bool)) (c : Clock) (w : World)
      → Step w (record_consents p u given c w).1
  starts : (p : Text) (u : ℕ) (c : Clock) (n : ℕ) (w : World) → Step w (start p u c n w).1
  device_event :
      (s : Text) (u : ℕ) (k : ConsentKind) (b : Bool) (t : ℕ) (w : World)
      → Step w (record_device_event s u k b t w).1
  beats : (s : Text) (u : ℕ) (w : World) → Step w (heartbeat s u w).1
  finishes : (s : Text) (u t : ℕ) (c : Clock) (w : World) → Step w (finish s u t c w).1
  submits :
      (s : Text) (u : ℕ) (given : List AnswerInput) (c : Clock) (n : ℕ) (w : World)
      → Step w (submit_form_response s u given c n w).1
  validates : (s : ℕ) (c : Clock) (w : World) → Step w (process_session_validate s c w).1
  reconciles :
      (created_at : ℕ → ℕ) (c : Clock) (w : World)
      → Step w (process_reconcile_stuck_jobs created_at c w).1
  validates_build :
      (now id : ℕ) (deps : Deps) (w : World) → Step w (process_build_validate now id deps w).1
  expires : (s : ℕ) (w : World) → Step w (record w { heartbeats = without s w.heartbeats })

pub data Reach : World → World → Type 0 where
  stay : (w : World) → Reach w w
  then_step : {w v u : World} → Reach w v → Step v u → Reach w u

module _ (Q : Db → Type 0) (K : Writes Q) where
  step_keeps : (w v : World) → Step w v → Q w.db → Q v.db
  step_keeps _ _ (joins t u c n w) h = (Keeps-join Q K t u c n).at w h
  step_keeps _ _ (reserves now t u n w) h = (K.reserve now t u n).at w h
  step_keeps _ _ (consents p u given c w) h = (Keeps-consents Q K p u given c).at w h
  step_keeps _ _ (starts p u c n w) h = (Keeps-start Q K p u c n).at w h
  step_keeps _ _ (device_event s u k b t w) h = (Keeps-device_event Q K s u k b t).at w h
  step_keeps _ _ (beats s u w) h = (Keeps-heartbeat Q K s u).at w h
  step_keeps _ _ (finishes s u t c w) h = (Keeps-finish Q K s u t c).at w h
  step_keeps _ _ (submits s u given c n w) h = (Keeps-submit Q K s u given c n).at w h
  step_keeps _ _ (validates s c w) h = (K.validate s c).at w h
  step_keeps _ _ (reconciles created_at c w) h = (Keeps-reconcile Q K created_at c).at w h
  step_keeps _ _ (validates_build now id deps w) h = (Keeps-build_validate Q K now id deps).at w h
  step_keeps _ _ (expires s w) h = h

  pub reach_keeps : (w v : World) → Reach w v → Q w.db → Q v.db
  reach_keeps _ _ (stay w) h = h
  reach_keeps _ _ (then_step {w} {v} {u} r s) h = step_keeps v u s (reach_keeps w v r h)
