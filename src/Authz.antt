-- ===== src/Authz.antt =====
-- backend/app/authorization.py and the principal of backend/app/auth.py.
mod Permissions
mod Grants
mod Clauses
mod Audit
pub mod Scopes
pub mod Redaction
pub use Permissions.*
unfoldable pub use Grants.*
unfoldable pub use Clauses.*
unfoldable pub use Audit.*
