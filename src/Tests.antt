-- ===== src/Tests.antt =====
-- The theorems at concrete data.
pub mod World
pub mod Bosh
pub mod Kinds
pub mod Networks
pub mod Uaa
pub mod Uploads
pub mod Registry
pub mod Controllers
pub mod Deployments
pub mod Names
pub mod Freezing
pub mod Manifests
pub mod Retries
pub mod Tenants
pub mod Deletions
pub mod Starting
pub mod WholeRuns
pub mod Links
pub mod Histories
pub mod Directors
