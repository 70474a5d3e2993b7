-- ===== src/Scheduler.antt =====
-- src/scheduler.rs and its modules.
pub mod ScheduleCalc
pub mod MissedRuns
pub mod Service
pub mod Executor
