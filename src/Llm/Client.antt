-- ===== src/Llm/Client.antt =====
-- `StructuredLLMClient` of agent-service/app/llm/structured.py.
pub mod Generate
pub mod Retries
