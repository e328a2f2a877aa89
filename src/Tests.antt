-- ===== src/Tests.antt =====
-- The theorems at concrete inputs.
mod Fixtures
mod Tenants
mod Retention
mod Actions
mod Endpoint
mod Edge
mod Accounts
mod Confined
mod SignUps
mod Screening
mod Pools
mod Searching
mod Tenancy
