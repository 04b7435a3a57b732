-- ===== src/Config/Runtime/Tests.antt =====
-- src/config/runtime.rs: runs of the start, and the theorem at a configuration.
use gsc_fq.Common.{
  ◌≡◌, refl, false, true, Option, none, some, [], ◌∷◌, Bytes, codes, bytes_eq, if◌then◌else◌,
}
use gsc_fq.Common.Net.{IpAddr, v4, SocketAddr}
use gsc_fq.Common.Results.{ok, err}
use gsc_fq.Config.Sections.{ProxySection}
use gsc_fq.Config.Validate.{ConfigFile}
use gsc_fq.Config.Runtime.{
  RuntimeManager, reverse_server, no_services_configured, run, bind_ip_of, start_forward,
  start_client,
}

abbrev trim : Bytes → Bytes
trim s = s

abbrev parse_ip : Bytes → Option IpAddr
parse_ip s = if bytes_eq s (codes "10.0.0.1") then some (v4 167772161) else none

abbrev parse_socket : Bytes → Option SocketAddr
parse_socket s = none

abbrev web : ProxySection
web = record {
  local = codes "8080";
  remote = codes "10.0.0.1:80";
  source_ip = none;
  allow_ips = none;
  max_conns_per_ip = none;
  cps_limit = none;
}

abbrev file : ConfigFile
file = record {
  server = none;
  proxies = web ∷ [];
  reverse_proxies = [];
  has_server = true;
  has_client = false;
}

abbrev manager : RuntimeManager
manager = record { config = file; reverse_proxy_server = some 9001; reverse_proxy_client = none }

server_alone :
    run trim parse_ip parse_socket (record manager { config = record file { proxies = [] } })
    ≡ ok (reverse_server (v4 0) 9001 ∷ [])
unfolding run bind_ip_of start_forward start_client
server_alone = refl

nothing_to_start :
    run trim parse_ip parse_socket (record {
      config = record file { proxies = [] };
      reverse_proxy_server = none;
      reverse_proxy_client = none;
    })
    ≡ err no_services_configured
unfolding run bind_ip_of start_forward start_client
nothing_to_start = refl
