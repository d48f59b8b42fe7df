-- ===== src/Knowledge.antt =====
-- agent-service/app/knowledge_graph: entities and relations extracted from documents.
pub mod Models
pub mod Persist
pub mod Store
pub mod Answer
pub mod Paths
pub mod Search
pub mod Lookup
pub mod Reach
pub mod Found
pub mod Citations
pub mod Isolation
pub mod Grounded
pub mod Accepted
