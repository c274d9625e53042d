-- ===== src/Ratings.antt =====
-- Ratings: src/lorcana/ratings.
pub mod Build
pub mod Types
pub mod Policy
pub mod Elo
pub mod Snapshot
pub mod Calculate
pub mod Publish
pub mod History
pub mod Tests
pub mod BuildTests
