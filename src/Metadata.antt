-- ===== src/Metadata.antt =====
-- agent-service/app/metadata.
pub mod Snapshot
pub mod Cache
pub mod Expiry
