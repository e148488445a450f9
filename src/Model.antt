-- ===== src/Model.antt =====
-- The rows of backend/app/models.py that the handlers below read and write, and the database.
-- A time is the number of its seconds: the stored texts have one width and order as the times do.
-- A text that the schema limits to a few values is an enumeration.
mod Enums
mod Metadata
mod Fleet
mod People
mod Rows
pub mod Tx
pub use Enums.*
pub use Metadata.*
pub use Fleet.*
pub use People.*
pub use Rows.*
