-- ===== src/Controllers/CloudKinds.antt =====
-- The kinds that are kept as cloud configs, from the API server's object down to the BOSH library's
-- calls.
pub mod Azs
pub mod Extensions
pub mod Compilations
pub mod Networks
