-- ===== src/Checks.antt =====
-- Concrete runs of the development: a small world, tests, and the theorems at concrete inputs.
pub mod World
mod Approvals
mod Actions
mod Rules
mod Hierarchy
mod Identity
mod Enrollment
mod Endpoints
mod Fleet
mod Gate
mod History
