-- ===== src/Workers.antt =====
-- workers/: the jobs that run outside the requests.
pub mod BuildValidate
pub mod SessionValidate
pub mod Reconcile
