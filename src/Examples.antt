-- ===== src/Examples.antt =====
-- The theorems applied at concrete inputs, and what these share.
mod Dialect
mod Guard
mod Policies
mod Executor
mod Service
mod Workflow
mod Runs
mod Client
mod Questions
mod Chart
mod Texts
mod Caches
mod Services
mod Northwind
mod Actions
mod Knowledge
mod Retrieval
mod Provider
mod Chunks
