-- ===== src/Participations.antt =====
-- modules/participations: the repository, the participations service and the sessions service.
pub mod Repository
pub mod SessionQueries
pub mod Service
pub mod Sessions
pub mod Invariants
pub mod Slots
pub mod Joins
