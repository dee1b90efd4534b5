-- ===== src/Agents.antt =====
-- project/src/agents: approvals of consequential actions. A user's decision flips the state of an
-- approval and enqueues a job; only the job runs the effect.
pub mod Machine
pub mod Registry
pub mod Approvals
pub mod Effects
pub mod Steps
pub mod Execution
pub mod Lifecycle
pub mod Runs
pub mod Sequence
