-- ===== src/Storage/Table/Laws.antt =====
-- The table seen through its primary key: reads after writes.
mod Cas
mod Rows
mod Select
pub use Cas.*
pub use Rows.*
pub use Select.*
