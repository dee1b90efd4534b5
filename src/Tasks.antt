-- ===== src/Tasks.antt =====
-- project/src/tasks: who sees the tasks of others, and which memories derive tasks.
pub mod Gate
pub mod Derivation
