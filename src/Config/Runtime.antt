-- ===== src/Config/Runtime.antt =====
-- src/config/runtime.rs: RuntimeManager::run up to the wait for its services. `parse_ip` and
-- `parse_socket` (`parse::<SocketAddr>()`) are the standard library's.
use gsc_fq.Common.{
  ℕ, Bool, Option, none, some, List, [], ◌∷◌, ◌++◌, ◌≡◌, ◌⊎◌, inl, inr, refl, ap, Bytes, Pairwise,
  Option-cases,
}
use gsc_fq.Common.Net.{IpAddr, v4, SocketAddr}
use gsc_fq.Common.Results.{Result, ok, err, ◌>>=◌, map_err}
use gsc_fq.Config.Sections.{ProxySection}
use gsc_fq.Config.Validate.{ConfigFile, ServerSection}
use gsc_fq.Proxy.Server.{ProxyServer, Refusal, invalid_ip_address, build, parse_ip_address}
pub mod Services
pub mod Tests

-- The configuration, with the parts of it that only the runtime reads: the control port of the
-- reverse proxy server and the address that the reverse proxy client connects to.
pub record RuntimeManager : Type 0 where
  pub config : ConfigFile
  pub reverse_proxy_server : Option ℕ
  pub reverse_proxy_client : Option Bytes

-- What is started.
pub data Service : Type 0 where
  forward_server : ProxyServer → Service
  reverse_server : IpAddr → ℕ → Service
  reverse_client : SocketAddr → Service

pub data RunError : Type 0 where
  refused : Refusal → RunError
  invalid_server_address : Bytes → RunError
  no_services_configured : RunError

abbrev pub start_reverse_server : IpAddr → Option ℕ → List Service
start_reverse_server ip none = []
start_reverse_server ip (some port) = reverse_server ip port ∷ []

-- The end of the start: there is a service.
abbrev pub started : List Service → Result (List Service) RunError
started [] = err no_services_configured
started (s ∷ ss) = ok (s ∷ ss)

abbrev pub client_at : Bytes → Option SocketAddr → Result (List Service) RunError
client_at address none = err (invalid_server_address address)
client_at address (some a) = ok (reverse_client a ∷ [])

abbrev pub forwarding : Result ProxyServer Refusal → Result (List Service) RunError
forwarding r = map_err refused r >>= λ s. ok (forward_server s ∷ [])

module _ (trim : Bytes → Bytes) (parse_ip : Bytes → Option IpAddr) where
  -- The address to bind to, 0.0.0.0 where none is given.
  unfoldable pub bind_ip_of : Option ServerSection → Result IpAddr Refusal
  unfolding parse_ip_address
  bind_ip_of none = ok (v4 0)
  bind_ip_of (some section) = elim section.bind_ip [
    | none ↦ ok (v4 0)
    | some text ↦ parse_ip_address trim parse_ip text
  ]

  unfoldable pub start_forward : IpAddr → List ProxySection → Result (List Service) RunError
  unfolding build
  start_forward ip [] = ok []
  start_forward ip (p ∷ ps) = forwarding (build trim parse_ip (some ip) (p ∷ ps))

  module _ (parse_socket : Bytes → Option SocketAddr) where
    unfoldable pub start_client : Option Bytes → Result (List Service) RunError
    start_client none = ok []
    start_client (some address) = client_at address (parse_socket address)

    unfoldable pub run : RuntimeManager → Result (List Service) RunError
    unfolding bind_ip_of start_forward start_client
    run m = do
      ip ← map_err refused (bind_ip_of m.config.server)
      forward ← start_forward ip m.config.proxies
      client ← start_client m.reverse_proxy_client
      started (forward ++ (start_reverse_server ip m.reverse_proxy_server ++ client))
