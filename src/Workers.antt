-- ===== src/Workers.antt =====
-- panel/src/workers/index.ts: the job queue, and the handler of each job.
pub mod Steps
pub mod Tables
pub mod Power
pub mod Install
pub mod Removal
pub mod Queue
pub mod Frame
