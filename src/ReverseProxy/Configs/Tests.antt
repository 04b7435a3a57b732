-- ===== src/ReverseProxy/Configs/Tests.antt =====
-- src/reverse_proxy/client.rs: the theorem on accepted configurations at an input.
use gsc_fq.Common.{
  ◌≡◌, refl, true, false, none, List, [], ◌∷◌, codes, length, All, contains, nat_eq,
}
use gsc_fq.Common.Results.{ok}
use gsc_fq.Config.Sections.{
  ReverseProxySection, get_server_port, get_service_port, split, parse_u16, digits_u16, port_of,
  port_behind,
}
use gsc_fq.Config.Validate.{
  ConfigFile, validate, check_bind_ip, check_proxies, check_reverses, check_reverse, check_service,
  check_source_ip,
}
use gsc_fq.ReverseProxy.Protocol.{ReverseProxyConfig}
use gsc_fq.ReverseProxy.Configs.{parse_proxy_configs}
use gsc_fq.ReverseProxy.Configs.Accepted.{HasPorts, parse_proxy_configs-accepted}

abbrev service : ReverseProxySection
service = record { server = codes "7000"; local = codes "127.0.0.1:22"; source_ip = none }

abbrev file : ConfigFile
file = record {
  server = none;
  proxies = [];
  reverse_proxies = service ∷ [];
  has_server = false;
  has_client = true;
}

accepted_file : validate (λ s. s) (λ s. true) file ≡ ok (file, [])
unfolding validate check_bind_ip check_proxies check_reverses check_reverse check_service
    check_source_ip get_server_port get_service_port split parse_u16 digits_u16 port_of port_behind
    contains
accepted_file = refl

parse_proxy_configs-accepted_example :
    (cs : List ReverseProxyConfig) × (parse_proxy_configs (service ∷ []) ≡ ok cs)
    × (length cs ≡ 1)
    × All HasPorts cs
parse_proxy_configs-accepted_example =
    parse_proxy_configs-accepted (λ s. s) (λ s. true) file file [] accepted_file
