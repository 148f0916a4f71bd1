-- ===== src/Jobs.antt =====
-- The durable job queue: the table `operational_jobs` with the statements of
-- src/operations/jobRepository.js, and the worker of src/modules/reports/jobQueue.js.
pub mod Task
pub mod Table
pub mod Claim
pub mod Drain
pub mod Steps
pub mod Invariant
pub mod Finished
pub mod Attempts
pub mod Backfill
pub mod Worker
pub mod Ticks
pub mod Dispatch
mod Tests
