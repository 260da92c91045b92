-- ===== src/World.antt =====
-- The state that the handlers share: the database, and outside its transactions the heartbeat keys
-- and the dashboard cache of Redis, the job queue and the object storage.
pub mod Keeps
use orbitplay_api.Prelude.{ℕ, not, Option, List, filter, ◌==◌}
use orbitplay_api.Errors.{Result, ok, err}
use orbitplay_api.Exec.{Exec, modify}
use orbitplay_api.Schema.Rows.{
  TestRow, AudienceRow, QuestionRow, BuildRow, BuildStepRow, ParticipationRow, ConsentRow,
  SessionRow, DeviceEventRow, RecordingRow, ValidationRow, XpEventRow,
}
use orbitplay_api.Eligibility.{Date}
use orbitplay_api.FormAnswers.{AnswerInput}
use orbitplay_api.Queue.{Queue, JobId, EnsureJobOutcome, ensure_job_enqueued}

pub record UserRow : Type 0 where
  pub id : ℕ
  pub birthdate : Option Date

-- A row of `form_responses` with its rows of `form_answers`.
pub record FormResponseRow : Type 0 where
  pub id : ℕ
  pub session_id : ℕ
  pub submitted_at : ℕ
  pub answers : List AnswerInput

pub record Db : Type 0 where
  pub users : List UserRow
  pub tests : List TestRow
  pub audience : List AudienceRow
  pub questions : List QuestionRow
  pub builds : List BuildRow
  pub build_steps : List BuildStepRow
  pub participations : List ParticipationRow
  pub consents : List ConsentRow
  pub sessions : List SessionRow
  pub device_events : List DeviceEventRow
  pub recordings : List RecordingRow
  pub form_responses : List FormResponseRow
  pub validations : List ValidationRow
  pub xp_events : List XpEventRow
  -- the tests that have a cached report block
  pub report_snapshots : List ℕ

pub record World : Type 0 where
  pub db : Db
  pub open db use *
  -- the sessions whose heartbeat key has not expired
  pub heartbeats : List ℕ
  -- the organizations whose dashboard KPIs are cached
  pub kpi_cache : List ℕ
  pub queue : Queue
  -- the storage keys of stored objects, with their sizes
  pub objects : List (ℕ × ℕ)

-- The clock: `Date.now()`, which the database's `now()` follows, and the UTC date.
pub record Clock : Type 0 where
  pub now : ℕ
  pub today : Date

module _ {A : Type 0} where
  abbrev pub settle : Result A → World → World → Result A × World
  settle (ok a) before after = (ok a, after)
  settle (err e) before after = (err e, record after { db = before.db })

  -- `db.transaction(fn)`: a raise takes back every write to the database, and nothing else.
  unfoldable pub transaction : Exec World A → Exec World A
  transaction m w = settle (m w).0 w (m w).1

-- The ids of a list but one.
abbrev pub without : ℕ → List ℕ → List ℕ
without i xs = filter (λ x. not (x == i)) xs

-- `ReportSnapshotCache.invalidate`
unfoldable pub invalidate_report_snapshots : ℕ → Exec World (Unit {0})
invalidate_report_snapshots test_id =
    modify
      (λ w. record w { db = record w.db { report_snapshots = without test_id w.report_snapshots } })

-- `DashboardKpiCache.invalidate`
unfoldable pub invalidate_dashboard_kpis : ℕ → Exec World (Unit {0})
invalidate_dashboard_kpis organization_id =
    modify (λ w. record w { kpi_cache = without organization_id w.kpi_cache })

-- `ensureEnqueued` on the queue of the world.
unfoldable pub ensure_enqueued : JobId → Exec World EnsureJobOutcome
ensure_enqueued i w = let (r, q) = ensure_job_enqueued i w.queue in (r, record w { queue = q })
