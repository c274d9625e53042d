-- ===== src/Teams.antt =====
-- Members, their provider accounts and teams (src/lorcana/teams, src/lorcana/identity).
pub mod Tables
pub mod Repository
pub mod Definition
pub mod Bootstrap
pub mod Identity
pub mod Tests
