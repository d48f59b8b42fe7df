-- ===== src/QuerySafety/Policy.antt =====
-- `QueryPolicy` of agent-service/app/query_safety/models.py. A float that is only compared is
-- counted in units of 2 ^ -1074, in which every finite float of zero or more is a whole number.
pub mod Snapshot
pub mod Restriction
pub mod Model
