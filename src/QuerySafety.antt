-- ===== src/QuerySafety.antt =====
-- agent-service/app/query_safety: from an untrusted SQL text to a bounded, audited result.
pub mod Errors
pub mod Policy
pub mod SqlGlot
pub mod Guard
pub mod Result
pub mod Executor
pub mod Service
pub mod Cost
pub mod Estimates
