-- ===== src/Controllers.antt =====
-- The package controllers: what is done for one request, by kind.
pub mod Platform
pub mod Secrets
pub mod Clients
pub mod Bosh
pub mod Uaa
pub mod Artifacts
pub mod CloudKinds
pub mod Deployments
pub mod Uploads
pub mod Histories
pub mod Reconcilers
pub mod Setup
