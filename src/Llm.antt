-- ===== src/Llm.antt =====
-- agent-service/app/llm: structured calls of a language model, with bounded retries.
pub mod Errors
pub mod Client
pub mod Provider
pub mod Statuses
