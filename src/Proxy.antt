-- ===== src/Proxy.antt =====
-- src/proxy: forward proxying.
pub mod Blackhole
pub mod Copy
pub mod Metrics
pub mod QualityAware
pub mod Enhanced
pub mod Handler
pub mod Server
pub mod ZeroCopy
pub mod Stealth
pub mod Selector
pub mod Resilient
