-- ===== src/Jobs/Invariant.antt =====
-- What holds of the two job tables between transactions, and a rule for the transactions that
-- rewrite rows in place.
mod Defs
pub mod Find
pub mod Update
pub use Defs.*
