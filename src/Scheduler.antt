-- ===== src/Scheduler.antt =====
-- panel/src/services/scheduler.ts
pub mod Field
pub mod Cron
pub mod Runs
