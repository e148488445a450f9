-- ===== src/Identity.antt =====
-- backend/app/api/endpoints/device_identity.py: enrollment tokens and the credentials of devices.
mod Secrets
mod Bootstrap
mod Tokens
mod Credentials
mod Redemption
mod Exchange
mod Issuing
pub mod Enrolling
pub mod Exchanging
pub mod Parsing
pub mod Rotating
pub mod Lifecycle
pub mod Issued
pub mod Usable
pub mod Revoking
pub mod Repeating
unfoldable pub use Secrets.*
unfoldable pub use Bootstrap.*
unfoldable pub use Tokens.*
unfoldable pub use Credentials.*
unfoldable pub use Redemption.*
unfoldable pub use Exchange.*
unfoldable pub use Issuing.*
