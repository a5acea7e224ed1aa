-- ===== src/Api.antt =====
-- The package api/v1: the kinds of resource, and what each does to itself and to BOSH.
pub mod Types
pub mod Base32
pub mod Helpers
pub mod Freezing
pub mod Az
pub mod Extension
pub mod Release
pub mod BaseImage
pub mod Compilation
pub mod Network
pub mod Team
pub mod Director
pub mod Deployment
pub mod InternalNames
pub mod FinalizerLaws
pub mod FrozenLaws
pub mod Registration
