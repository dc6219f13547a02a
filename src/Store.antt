-- ===== src/Store.antt =====
-- The database of the services of internal/service and the way their code runs on it.
--
-- The tables are lists of rows. A statement is the SQL that a gorm call builds, and the driver may
-- fail at any statement: `fails` is the environment's choice, by the statement's number.
mod Goods
mod Tickets
mod Rows
mod Monad
pub mod Rules
pub mod Steps
pub mod Samples
pub use Goods.*
pub use Tickets.*
pub use Rows.*
unfoldable pub use Monad.*
