-- ===== src/Agent.antt =====
-- agent-service/app/agent: the durable workflow that answers a question.
pub mod State
pub mod Failures
pub mod Steps
pub mod Graph
pub mod Workflow
pub mod Charting
pub mod Charts
pub mod Answering
pub mod Extremes
pub mod Described
pub mod Actions
