-- ===== src/QuerySafety/Guard.antt =====
-- `SQLGuard` of agent-service/app/query_safety/guard.py, check by check, over the abstract syntax
-- trees of SqlGlot.antt. `sha256_hex` stands for `hashlib.sha256(...).hexdigest()`.
pub mod Checks
pub mod Inspect
pub mod Admitted
pub mod Tables
