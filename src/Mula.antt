-- ===== src/Mula.antt =====
-- Mula, the scheduler (mula/scheduler): its tasks and schedules, the store that keeps them, the
-- priority queue and the boefje scheduler.
pub mod Models
pub mod Database
pub mod Ordering
pub mod PqStore
pub mod Queue
pub mod Paging
pub mod TaskStore
pub mod ScheduleStore
pub mod Rankers
pub mod Scheduler
pub mod Boefje
pub mod BoefjeQueue
pub mod BoefjeTasks
pub mod Mutations
pub mod Normalizers
pub mod Reports
pub mod Rescheduling
pub mod Examples
