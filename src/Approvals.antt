-- ===== src/Approvals.antt =====
-- backend/app/api/endpoints/approvals.py: requests for approval, decisions and grants.
mod Checks
mod Grants
mod Requests
mod Decide
mod Listing
pub mod Listed
pub mod Shapes
pub mod Expiring
pub mod Current
pub mod Lifecycle
pub mod Decisions
unfoldable pub use Checks.*
unfoldable pub use Grants.*
unfoldable pub use Requests.*
unfoldable pub use Decide.*
unfoldable pub use Listing.*
