-- ===== src/Duels.antt =====
-- Duels replays: src/lorcana/duels.
pub mod Tests
pub mod Pointer
pub mod Patch
pub mod Weekly
