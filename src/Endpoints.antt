-- ===== src/Endpoints.antt =====
-- backend/app/api/endpoints/endpoints.py: legacy registration, approval and heartbeats.
mod Capabilities
mod Registration
mod Heartbeat
pub mod Beating
unfoldable pub use Capabilities.*
unfoldable pub use Registration.*
unfoldable pub use Heartbeat.*
