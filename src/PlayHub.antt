-- ===== src/PlayHub.antt =====
-- Play Hub ingestion (src/lorcana/playhub): parsing of the source's payloads, the tables, the import of
-- an event and the discovery of events.
pub mod Raw
pub mod Types
pub mod Parser
pub mod Tables
pub mod Facts
pub mod Sync
pub mod Discovery
pub mod Import
pub mod Tests
