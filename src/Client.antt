-- ===== src/Client.antt =====
-- client/: the connection to the Ethereum node.
pub mod Stream
