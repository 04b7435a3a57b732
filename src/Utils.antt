-- ===== src/Utils.antt =====
-- src/utils: one-time passwords, the checks of the system and signals.
pub mod Totp
pub mod System
pub mod Signal
