-- ===== src/Crypto.antt =====
-- src/crypto: encryption of a stream, its key, and the simulated connection.
pub mod Stream
pub mod Key
pub mod Simulated
