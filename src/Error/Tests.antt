-- ===== src/Error/Tests.antt =====
-- src/error/types.rs: the errors that its tests use.
use gsc_fq.Common.{◌≡◌, refl, codes, false}
use gsc_fq.Error.{
  config, network, invalid_ip_address, connection_closed, insufficient_privileges, severity,
  is_recoverable, fatal, warning,
}

fatal_error : severity (config (invalid_ip_address (codes "test"))) ≡ fatal
unfolding severity
fatal_error = refl

warning_error : severity (network connection_closed) ≡ warning
unfolding severity
warning_error = refl

no_privileges : is_recoverable (config (insufficient_privileges 80)) ≡ false
unfolding is_recoverable
no_privileges = refl
