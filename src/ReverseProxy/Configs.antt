-- ===== src/ReverseProxy/Configs.antt =====
-- src/reverse_proxy/client.rs: `parse_proxy_configs`.
use gsc_fq.Common.{ℕ, Option, none, some, List, [], ◌∷◌, Bytes, codes}
use gsc_fq.Common.Results.{Result, ok, err, ◌>>=◌}
use gsc_fq.Config.Sections.{
  ReverseProxySection, InvalidConfigValue, get_server_port, get_server_ip, get_service_port,
  get_local_host,
}
use gsc_fq.ReverseProxy.Protocol.{ReverseProxyConfig}
pub mod Accepted
pub mod Tests

abbrev pub unwrap_or : Option Bytes → Bytes → Bytes
unwrap_or none fallback = fallback
unwrap_or (some h) fallback = h

abbrev pub config_of : ReverseProxySection → ℕ → ℕ → ReverseProxyConfig
config_of rproxy server_port local_port = record {
  server_port = server_port;
  server_host = get_server_ip rproxy;
  local_host = unwrap_or (get_local_host rproxy) (codes "localhost");
  local_port = local_port;
}

unfoldable pub parse_proxy_config :
    ReverseProxySection → Result ReverseProxyConfig InvalidConfigValue
parse_proxy_config rproxy = do
  server_port ← get_server_port rproxy
  local_port ← get_service_port rproxy
  ok (config_of rproxy server_port local_port)

-- The loop, which stops at the first error.
unfoldable pub parse_proxy_configs :
    List ReverseProxySection → Result (List ReverseProxyConfig) InvalidConfigValue
unfolding parse_proxy_config
parse_proxy_configs [] = ok []
parse_proxy_configs (r ∷ rs) = do c ← parse_proxy_config r; cs ← parse_proxy_configs rs; ok (c ∷ cs)
