-- ===== src/Agent/Actions.antt =====
-- agent-service/app/agent/actions.py: what the nodes of the workflow do.
pub mod Backend
pub mod Schema
pub mod Guarding
pub mod Nodes
pub mod Counter
pub mod Inspection
pub mod Rejection
pub mod Selection
pub mod Controlled
