-- ===== src/Agent/Workflow.antt =====
-- agent-service/app/agent/service.py and models.py.
pub mod Runs
pub mod Ownership
