-- ===== src/QuerySafety/Service.antt =====
-- `SafeQueryService` of agent-service/app/query_safety/service.py.
pub mod Run
pub mod Audit
pub mod Clearance
