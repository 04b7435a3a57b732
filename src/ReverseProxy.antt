-- ===== src/ReverseProxy.antt =====
-- src/reverse_proxy: the control protocol, the handshake, the sessions and the tunnel streams.
pub mod Protocol
pub mod Tunnel
pub mod Handshake
pub mod Sessions
pub mod Retry
pub mod Configs
pub mod Serving
pub mod Session
