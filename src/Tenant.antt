-- ===== src/Tenant.antt =====
-- The overlays on a tenant's control document, each read through a cache of the process.
pub mod Cache
pub mod Store
pub mod Status
pub mod ToolPolicy
pub mod Tier
pub mod PipPolicy
pub mod Lifecycle
