-- ===== src/Remote.antt =====
-- The package remote-clients: what the controllers ask of BOSH and of UAA.
pub mod Config
pub mod BoshClient
pub mod UaaClient
