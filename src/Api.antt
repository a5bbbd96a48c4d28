-- ===== src/Api.antt =====
-- The HTTP server of api/: who may ask, how often, and with which parameters.
pub mod Security
pub mod Params
pub mod Cache
pub mod Handlers
pub mod Snapshot
