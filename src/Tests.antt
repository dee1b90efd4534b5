-- ===== src/Tests.antt =====
-- Concrete states, and runs of the operations on them.
mod Fixtures
mod Memory
mod Sweep
mod Agents
mod Infrastructure
mod Ingestion
mod Tasks
mod Deletion
