-- ===== src/Db.antt =====
-- The database of one instance and its vector index: the rows of each table, the state, and the
-- statements that transactions are made of.
mod Rows
mod Vectors
mod State
mod Effects
pub mod Outcome
pub mod Total
unfoldable pub use Rows.*
unfoldable pub use Vectors.*
unfoldable pub use State.*
unfoldable pub use Effects.*
