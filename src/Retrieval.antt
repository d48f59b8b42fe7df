-- ===== src/Retrieval.antt =====
-- agent-service/app/retrieval.
pub mod Cache
pub mod Tenants
pub mod Models
pub mod Rank
pub mod Service
pub mod Sources
pub mod Answers
pub mod Memory
pub mod Own
pub mod Shown
pub mod Chunks
pub mod Tiling
