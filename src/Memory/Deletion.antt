-- ===== src/Memory/Deletion.antt =====
-- project/src/memory/deletion-saga.ts: the deletion of a source with all that derives from it, and
-- the worker that erases the external copies and confirms the receipt.
pub mod Ports
pub mod Cascades
pub mod Saga
pub mod Erasure
pub mod Executor
pub mod Runs
pub mod Erased
