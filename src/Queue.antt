-- ===== src/Queue.antt =====
-- infra/queue/queue.constants.ts and infra/queue/ensure-enqueued.ts: jobs with deterministic ids. The
-- queue (BullMQ) is not part of the repository: it is a list of jobs, on which `getJob`, `add` and
-- `retry` act as that library documents, and which may be out of reach.
pub mod Ensure
use orbitplay_api.Prelude.{
  ℕ, suc, ◌+◌, Bool, true, false, not, ◌&&◌, String, Option, none, some, List, [], ◌∷◌, ◌++◌, leb,
  ◌==◌, if◌then◌else◌,
}
use orbitplay_api.Errors.{error}
use orbitplay_api.Exec.{Exec, pure, fail, modify, gets, ◌>>=◌, ◌>>◌}

-- `JobName`, of the jobs that are enqueued with a deterministic id.
pub data JobName : Type 0 where
  media_transcode media_extract_audio build_validate session_validate report_export : JobName

abbrev pub same_name : JobName → JobName → Bool
same_name media_transcode media_transcode = true
same_name media_extract_audio media_extract_audio = true
same_name build_validate build_validate = true
same_name session_validate session_validate = true
same_name report_export report_export = true
same_name _ _ = false

-- `buildValidateJobId` and its siblings: the job's name and the id of its resource.
pub record JobId : Type 0 where
  pub name : JobName
  pub resource : ℕ

abbrev pub build_validate_job_id : ℕ → JobId
build_validate_job_id i = record { name = build_validate; resource = i }

abbrev pub media_transcode_job_id : ℕ → JobId
media_transcode_job_id i = record { name = media_transcode; resource = i }

abbrev pub media_extract_audio_job_id : ℕ → JobId
media_extract_audio_job_id i = record { name = media_extract_audio; resource = i }

abbrev pub session_validate_job_id : ℕ → JobId
session_validate_job_id i = record { name = session_validate; resource = i }

abbrev pub report_export_job_id : ℕ → JobId
report_export_job_id i = record { name = report_export; resource = i }

abbrev pub same_job : JobId → JobId → Bool
same_job a b = same_name a.name b.name && (a.resource == b.resource)

pub data JobState : Type 0 where
  waiting active delayed completed failed : JobState

abbrev pub is_failed : JobState → Bool
is_failed failed = true
is_failed _ = false

pub record Job : Type 0 where
  pub id : JobId
  pub state : JobState
  pub attempts_made : ℕ

pub record Queue : Type 0 where
  pub jobs : List Job
  pub in_reach : Bool

abbrev pub max_job_runs : ℕ
max_job_runs = 5

pub data EnsureJobOutcome : Type 0 where
  enqueued retried exists exhausted : EnsureJobOutcome

unfoldable pub find_job : JobId → List Job → Option Job
find_job i [] = none
find_job i (j ∷ js) = if same_job j.id i then some j else find_job i js

unfoldable pub update_job : JobId → (Job → Job) → List Job → List Job
update_job i f [] = []
update_job i f (j ∷ js) = if same_job j.id i then f j ∷ js else j ∷ update_job i f js

-- `job.retry()` puts the job back in line and keeps its `attemptsMade`.
abbrev pub retry : Job → Job
retry j = record j { state = waiting }

abbrev pub new_job : JobId → Job
new_job i = record { id = i; state = waiting; attempts_made = 0 }

abbrev pub ensure_found : Option Job → JobId → Exec Queue EnsureJobOutcome
ensure_found none i = do modify (λ q. record q { jobs = q.jobs ++ new_job i ∷ [] }); pure enqueued
ensure_found (some job) i =
    if not (is_failed job.state)
    then pure exists
    else if leb max_job_runs job.attempts_made
    then pure exhausted
    else do modify (λ q. record q { jobs = update_job i retry q.jobs }); pure retried

-- `ensureJobEnqueued`
unfoldable pub ensure_job_enqueued : JobId → Exec Queue EnsureJobOutcome
ensure_job_enqueued i q =
    if q.in_reach then ensure_found (find_job i q.jobs) i q else fail (error "queue out of reach") q
