-- ===== src/Memory/Deletion/Erasure.antt =====
-- What the enumeration transaction of a deletion leaves: the parts in the children, and the whole.
pub mod Rows
pub mod Stages
pub mod Redactions
pub mod Deletes
pub mod Gathering
pub mod Members
pub mod Objects
pub mod Remains
pub mod Total
pub mod Request
pub mod Success
