-- ===== src/Actions.antt =====
-- backend/app/api/endpoints/response_actions.py: the work that an approval grant lets an agent do.
mod Shape
mod Create
mod Lease
pub mod Syncing
pub mod Creating
pub mod Claiming
pub mod Exclusive
pub mod Completing
pub mod Lifecycle
unfoldable pub use Shape.*
unfoldable pub use Create.*
unfoldable pub use Lease.*
