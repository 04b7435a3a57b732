-- ===== src/Error.antt =====
-- src/error/types.rs: the errors of the application. A message is a text; an error of the standard
-- library or of the TOML parser stands for its message.
use gsc_fq.Common.{
  ℕ, ◌++◌, ◌≡◌, ◌⊎◌, inl, inr, refl, Bool, true, false, arith, Bytes, codes, List, ◌∷◌, [],
}
use gsc_fq.Common.Results.{Result, ok, err, map_err}
mod Tests

pub data ConfigError : Type 0 where
  invalid_ip_address : Bytes → ConfigError
  port_in_use : ℕ → ConfigError
  port_bind_error : ℕ → Bytes → ConfigError
  insufficient_privileges : ℕ → ConfigError
  invalid_port : ℕ → ConfigError
  invalid_toml_format : Bytes → ConfigError
  invalid_config_value : Bytes → Bytes → ConfigError
  missing_required_field : Bytes → ConfigError
  config_file_not_found : Bytes → ConfigError
  read_failed : Bytes → ConfigError
  invalid_config : Bytes → ConfigError

pub data NetworkError : Type 0 where
  connection_failed : Bytes → NetworkError
  listen_failed : Bytes → NetworkError
  socket_creation_failed : Bytes → NetworkError
  address_resolution_failed : Bytes → NetworkError
  connection_timeout : NetworkError
  connection_closed : NetworkError
  connection_reset : NetworkError
  network_unreachable : NetworkError
  invalid_buffer_size : ℕ → NetworkError
  invalid_socket_option : Bytes → NetworkError

pub data ProxyError : Type 0 where
  startup_failed : Bytes → ProxyError
  stop_failed : Bytes → ProxyError
  forwarding_failed : Bytes → ProxyError
  connection_pool_error : Bytes → ProxyError
  buffer_pool_error : Bytes → ProxyError
  invalid_proxy_config : Bytes → ProxyError
  instance_not_found : Bytes → ProxyError
  forwarding_strategy_error : Bytes → ProxyError

pub data PerformanceError : Type 0 where
  tcp_optimization_failed : Bytes → PerformanceError
  buffer_pool_init_failed : Bytes → PerformanceError
  connection_pool_init_failed : Bytes → PerformanceError
  insufficient_resources : Bytes → PerformanceError
  invalid_performance_parameter : Bytes → PerformanceError
  zero_copy_failed : Bytes → PerformanceError

pub data SystemError : Type 0 where
  signal_handling_failed : Bytes → SystemError
  insufficient_file_descriptors : SystemError
  system_call_failed : Bytes → SystemError
  permission_denied : Bytes → SystemError
  resource_exhausted : Bytes → SystemError

pub data ReverseProxyError : Type 0 where
  protocol_error : Bytes → ReverseProxyError
  handshake_failed : Bytes → ReverseProxyError
  client_disconnected : ReverseProxyError
  invalid_message : Bytes → ReverseProxyError
  serialization_failed : Bytes → ReverseProxyError
  deserialization_failed : Bytes → ReverseProxyError
  control_channel_error : Bytes → ReverseProxyError
  port_allocation_failed : Bytes → ReverseProxyError
  multiplexing_error : Bytes → ReverseProxyError
  connection_failed : Bytes → ReverseProxyError
  unsupported_version : ℕ → ReverseProxyError
  crypto_error : Bytes → ReverseProxyError

pub data AppError : Type 0 where
  config : ConfigError → AppError
  network : NetworkError → AppError
  proxy : ProxyError → AppError
  performance : PerformanceError → AppError
  system : SystemError → AppError
  reverse_proxy : ReverseProxyError → AppError
  io : Bytes → AppError
  serialization : Bytes → AppError
  internal : Bytes → AppError

unfoldable pub is_recoverable : AppError → Bool
is_recoverable (network connection_timeout) = true
is_recoverable (network connection_closed) = true
is_recoverable (network connection_reset) = true
is_recoverable (system insufficient_file_descriptors) = false
is_recoverable (config (insufficient_privileges p)) = false
is_recoverable e = true

pub data ErrorSeverity : Type 0 where
  fatal error warning info : ErrorSeverity

unfoldable pub severity : AppError → ErrorSeverity
severity (config e) = fatal
severity (system insufficient_file_descriptors) = fatal
severity (network connection_closed) = warning
severity (network connection_timeout) = error
severity e = error

-- The extension of results, of any error that converts into an AppError. `display` is the text that
-- an error prints.
module _ {A E : Type 0} (into : E → AppError) (display : AppError → Bytes) where
  pub with_context : Result A E → Bytes → Result A AppError
  with_context r context = map_err (λ e. internal (context ++ (codes ": " ++ display (into e)))) r

  pub internal_error : Result A E → Result A AppError
  internal_error r = map_err (λ e. internal (codes "Internal error: " ++ display (into e))) r

network_recoverable : (e : NetworkError) → is_recoverable (network e) ≡ true
unfolding is_recoverable
network_recoverable (connection_failed m) = refl
network_recoverable (listen_failed m) = refl
network_recoverable (socket_creation_failed m) = refl
network_recoverable (address_resolution_failed m) = refl
network_recoverable connection_timeout = refl
network_recoverable connection_closed = refl
network_recoverable connection_reset = refl
network_recoverable network_unreachable = refl
network_recoverable (invalid_buffer_size n) = refl
network_recoverable (invalid_socket_option m) = refl

-- An error that cannot be recovered from is fatal.
unrecoverable_fatal : (e : AppError) → is_recoverable e ≡ false → severity e ≡ fatal
unfolding is_recoverable severity
unrecoverable_fatal (config e) h = refl
unrecoverable_fatal (system insufficient_file_descriptors) h = refl
unrecoverable_fatal (system (signal_handling_failed m)) h = absurd (cc)
unrecoverable_fatal (system (system_call_failed m)) h = absurd (cc)
unrecoverable_fatal (system (permission_denied m)) h = absurd (cc)
unrecoverable_fatal (system (resource_exhausted m)) h = absurd (cc)
unrecoverable_fatal (network e) h = let r = network_recoverable e in absurd (cc)
unrecoverable_fatal (proxy e) h = absurd (cc)
unrecoverable_fatal (performance e) h = absurd (cc)
unrecoverable_fatal (reverse_proxy e) h = absurd (cc)
unrecoverable_fatal (io m) h = absurd (cc)
unrecoverable_fatal (serialization m) h = absurd (cc)
unrecoverable_fatal (internal m) h = absurd (cc)
