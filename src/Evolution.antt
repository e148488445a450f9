-- ===== src/Evolution.antt =====
-- How the tables may change over time: a row is never removed, new rows stand behind the old
-- ones, and each row moves by the rule of its table.
mod Tables
mod Moves
mod Order
pub mod Steps
pub use Tables.*
unfoldable pub use Moves.*
pub use Order.*
