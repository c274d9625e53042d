-- ===== src/Jobs.antt =====
-- Durable background jobs: src/lorcana/jobs.
pub mod Tables
pub mod Enqueue
pub mod Prune
pub mod Lease
pub mod Holder
pub mod Invariant
pub mod History
pub mod Queue
pub mod Worker
pub mod Samples
pub mod Tests
pub mod Runs
pub mod Schedule
pub mod ScheduleTests
