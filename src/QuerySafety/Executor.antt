-- ===== src/QuerySafety/Executor.antt =====
-- `PostgresReadOnlyExecutor` and `_bounded_result` of agent-service/app/query_safety/executor.py.
pub mod Bounds
pub mod Codec
pub mod Run
