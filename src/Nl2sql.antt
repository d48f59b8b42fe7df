-- ===== src/Nl2sql.antt =====
-- agent-service/app/nl2sql.
pub mod Errors
pub mod Models
pub mod Tables
pub mod Isolation
pub mod Answer
pub mod Drafts
pub mod Repairs
pub mod Fuel
pub mod Question
