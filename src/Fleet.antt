-- ===== src/Fleet.antt =====
-- backend/app/api/endpoints/fleet_metadata.py: tags, saved views and dynamic groups.
mod Scopes
mod Tags
mod Views
mod Groups
pub mod Covering
pub mod Tagging
pub mod Versions
pub mod Previews
unfoldable pub use Scopes.*
unfoldable pub use Tags.*
unfoldable pub use Views.*
unfoldable pub use Groups.*
