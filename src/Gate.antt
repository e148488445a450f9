-- ===== src/Gate.antt =====
-- backend/app/auth.py: the middleware that admits a request and says who makes it.
mod Paths
mod Sessions
mod Admit
mod Middleware
pub mod Roles
pub mod Devices
pub mod Browsers
pub mod Granting
unfoldable pub use Paths.*
unfoldable pub use Sessions.*
unfoldable pub use Admit.*
unfoldable pub use Middleware.*
