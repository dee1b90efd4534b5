-- ===== src/Memory.antt =====
-- project/src/memory: the memory aggregate. Transition, Interval and Policy are its pure rules.
pub mod Transition
pub mod Policy
pub mod Facts
pub mod Store
pub mod Machine
pub mod Reconciliation
pub mod Command
pub mod Visibility
pub mod ReceiptChain
pub mod Deletion
pub mod Sweep
