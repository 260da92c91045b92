-- ===== src/Lib.antt =====
-- A playtest platform: studios publish tests of their games, players join them and play recorded
-- sessions, and workers validate what was played.
--
-- Parts, with the sources that they model (paths from the root of the repository):
--   Uuid, Errors, Pagination: src/shared/util/uuid.ts, src/shared/errors/app.exception.ts and
--     src/shared/pagination/pagination.ts.
--   Schema: src/infra/database/schema/{enums,tests,participations,player,users}.ts, one data type
--     for each enumeration and one record for each table.
--   World: the state that the handlers share. The database is a list of rows for each table, and
--     beside it stand the heartbeat keys and the dashboard cache of Redis, the job queue and the
--     object storage.
--   Exec: a handler is a function from the world to a result and the world that it leaves; a raise
--     keeps earlier writes, and `World.transaction` takes back those to the database.
--   PlayerCta, Eligibility, FormAnswers, TestModels: the pure helpers player-cta.ts,
--     assertAgeEligible and dateYearsAgo, form-answers.ts, and the catalogs of models and tutorials,
--     in src/modules/participations and src/modules/test-models.
--   Participations: src/modules/participations. Repository and SessionQueries hold the queries and
--     transactions of participations.repository.ts, Service and Sessions the handlers of
--     participations.service.ts and sessions.service.ts.
--   Tests: src/modules/tests, the wizard of a test; Publish its publication and status.
--   Queue: src/infra/queue, deterministic job ids and ensureJobEnqueued.
--   Workers: BuildValidate is src/workers/build.processor.ts, SessionValidate is
--     src/workers/session.processor.ts, Reconcile is src/workers/reconcile.processor.ts.
--   Media: src/modules/media, the upload of a session's recordings, on the world with the upload
--     sessions of Redis and the objects of the storage: Links starts an upload, Completion ends it.
--   Idempotency: src/shared/interceptors/idempotency.interceptor.ts, the slots of requests in Redis;
--     Payload holds the canonical form of a body, Traffic the histories in which requests in flight take their steps in any order.
--   Accounts: src/modules/auth and src/modules/orgs, on a state of their own, the account tables with
--     the attempt counters of Redis, the mails and the refresh cookie of the reply. Tokens holds the
--     queries of auth.repository.ts, Limits the attempt limits of auth.service.ts, Orgs the
--     transactions of orgs.repository.ts and Orgs.Service the handlers of orgs.service.ts; Auth is
--     login, refresh and logout of auth.service.ts with token.service.ts, Auth.Recovery the password
--     recovery and Auth.Signup the signups with age.ts.
--   Examples: concrete states and the runs of the theorems on them.
--
-- A request reaches a handler of Participations or Tests, which reads and writes the world and
-- enqueues jobs; a job runs a function of Workers on the same world. The interleavings of requests
-- and jobs are the histories of Participations.Invariants.Steps: a step runs a handler or a job as
-- one, and the transaction of a join also stands as a step of its own, since its checks may have run
-- in an earlier state. What is kept by each single write and by the validation of a session
-- (Participations.Invariants.Writes) is kept by every history. The wizard of Tests and the uploads of
-- Media stand beside these histories.
--
-- The requests to Accounts have histories of their own, Accounts.Invariants.Steps, in which each
-- request runs as one; what each single write keeps (Accounts.Invariants.Keeps) they keep.
--
-- A request that changes something may pass through the interceptor of Idempotency first, whose
-- state is its part of Redis, the clock, the phase of every request and a list of what was replied.
--
-- Numbers: an id is the 128-bit number of its UUID, a time is in milliseconds, and all numbers are
-- naturals without a bound. Of the numbers that the database stores, a request leaves only those of
-- sessions.duration_ms and session_device_events.t_ms unbounded, and there the range of `integer` is
-- modelled.
-- Fuel: only `Pagination.Walk.walk` runs on fuel, the number of pages that a client reads; one more
-- than the number of matching rows is enough.
-- A unique index is modelled where code relies on it: the partial index on active participations,
-- the key of a publication, the one form response, verdict and XP event. PostgreSQL, Redis and the
-- queue library are not part of the repository; their operations act as documented, and the queue
-- may be out of reach. New ids, the clock and the time in a UUIDv7 are arguments;
-- Accounts takes its ids from a supply that never repeats one. Emails, names, slugs, passwords,
-- hashes and tokens are only compared and passed on there, so a number stands for each text; the
-- text functions, argon2, SHA-256 and JSON web tokens are the fields of `Accounts.Env`, the slugs of
-- `Accounts.Auth.Signup.Slugs`. A role's row is known by its key, an insert respects the primary key
-- and the unique index of its table, and the columns `ip` and `user_agent` are left out.
-- The interceptor of Idempotency takes `JSON.stringify` with SHA-256 as `digest`. The build job takes
-- the bytes of an object and SHA-256 from `Workers.BuildValidate.Deps`; what
-- closing a multipart upload makes is an argument of `Media.Completion.complete_upload`.
--
-- Not modelled: views that only read, copy and labels, the audit trail, controllers and request
-- schemas, storage links, the upload of builds and the media processing, reports, the
-- listing of members, games and the access to them, chat, community and gamification.
pub mod Prelude
pub mod Uuid
pub mod Errors
pub mod Exec
pub mod Schema
pub mod Pagination
pub mod FormAnswers
pub mod PlayerCta
pub mod Eligibility
pub mod Idempotency
pub mod Queue
pub mod World
pub mod Accounts
pub mod Media
pub mod Participations
pub mod TestModels
pub mod Workers
pub mod Tests
pub mod Examples
