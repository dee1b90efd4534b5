-- ===== src/Memory/Sweep.antt =====
-- project/src/memory/integrity-sweep.ts: the nightly comparison of the receipts and the tables with
-- the index and the object store. Arms has the checks of the receipts and of the sources, Objects
-- that of the bucket, Payloads that of the payload copies, Run the whole and its ledger entry.
pub mod Arms
pub mod Objects
pub mod Payloads
pub mod Mirrors
pub mod Run
pub mod Residue
pub mod Pages
pub mod Healing
pub mod Snapshots
pub mod Rounds
