-- ===== src/Agent/Steps.antt =====
-- agent-service/app/agent/steps.py: the redacted trail of the nodes.
pub mod Record
pub mod Timed
pub mod Redaction
