-- ===== src/Config/Runtime/Services.antt =====
-- src/config/runtime.rs: the services that run starts for a configuration that validation accepts.
use gsc_fq.Common.{◌≡◌, ◌≢◌, ◌⊎◌, Option, none, some, List, [], ◌∷◌, ◌++◌, Bytes, Pairwise}
use gsc_fq.Common.Net.{IpAddr, SocketAddr}
use gsc_fq.Common.Results.{Result, ok, err}
use gsc_fq.Config.Sections.{ProxySection}
use gsc_fq.Config.Runtime.{
  RuntimeManager, Service, forward_server, reverse_client, RunError, refused,
  invalid_server_address, no_services_configured, bind_ip_of, start_reverse_server,
}
use gsc_fq.Proxy.Server.{Refusal, ProxyServer}
use gsc_fq.Proxy.Server.Instances.{NotIp}
use gsc_fq.Proxy.Server.Build.{Serves, Apart}

module _ (trim : Bytes → Bytes) (parse_ip : Bytes → Option IpAddr) where
  -- The forward server for some proxies: none for none, and else one with an idle instance for each,
  -- on different ports.
  pub Forwards : IpAddr → List ProxySection → List Service → Type 0
  Forwards ip ps services =
      ((ps ≡ []) × (services ≡ []))
      ⊎ ((s : ProxyServer) × (services ≡ forward_server s ∷ [])
          × Serves trim parse_ip ip ps s.proxy_instances
          × Pairwise (Apart trim parse_ip) s.proxy_instances)

  data Forward (ip : IpAddr) (ps : List ProxySection)
      : Result (List Service) RunError → Type 0 where
    forwards : {services : List Service} → Forwards ip ps services → Forward ip ps (ok services)
    not_ip : {e : Refusal} → NotIp trim parse_ip e → Forward ip ps (err (refused e))

  module _ (parse_socket : Bytes → Option SocketAddr) where
    -- The client for an address, if there is one.
    pub Connects : Option Bytes → List Service → Type 0
    Connects address services =
        ((address ≡ none) × (services ≡ []))
        ⊎ ((text : Bytes) × (a : SocketAddr) × (address ≡ some text)
            × (parse_socket text ≡ some a)
            × (services ≡ reverse_client a ∷ []))

    -- How a run begins: with the services that are configured, at least one, or with the reason why
    -- there are none.
    pub data Outcome (m : RuntimeManager) : Result (List Service) RunError → Type 0 where
      runs :
          (ip : IpAddr) (forward client : List Service) {services : List Service}
          → bind_ip_of trim parse_ip m.config.server ≡ ok ip
          → Forwards ip m.config.proxies forward
          → Connects m.reverse_proxy_client client
          → services ≡ forward ++ (start_reverse_server ip m.reverse_proxy_server ++ client)
          → services ≢ []
          → Outcome m (ok services)
      bad_ip : {e : Refusal} → NotIp trim parse_ip e → Outcome m (err (refused e))
      bad_address :
          (text : Bytes)
          → m.reverse_proxy_client ≡ some text
          → parse_socket text ≡ none
          → Outcome m (err (invalid_server_address text))
      nothing :
          m.config.proxies ≡ []
          → m.reverse_proxy_server ≡ none
          → m.reverse_proxy_client ≡ none
          → Outcome m (err no_services_configured)
