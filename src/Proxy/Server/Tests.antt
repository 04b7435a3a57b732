-- ===== src/Proxy/Server/Tests.antt =====
-- src/proxy/server.rs: servers built and started, and the theorem on a build at a configuration.
use gsc_fq.Common.{
  ◌≡◌, refl, false, Option, none, some, [], ◌∷◌, Bytes, codes, bytes_eq, contains, get_elem?,
  if◌then◌else◌,
}
use gsc_fq.Common.Net.{IpAddr, v4}
use gsc_fq.Common.Results.{ok, err}
use gsc_fq.Config.Sections.{
  ProxySection, get_local_port, get_local_ip, get_remote_port, get_remote_host, split, digits_u16,
  parse_u16, port_of, port_behind,
}
use gsc_fq.Config.Validate.{
  ConfigFile, validate, check_bind_ip, check_proxies, check_proxy, check_ports, check_source_ip,
  check_reverses, is_null,
}
use gsc_fq.Error.{network, listen_failed}
use gsc_fq.Proxy.Server.{
  invalid_ip_address, build, add_all, add_proxy, instance_for, local_bind_ip, create_socket_addr,
  Calls, ProxyInstance, ProxyServer, parse_source, create_optimized_listener,
}
use gsc_fq.Proxy.Stealth.{new, is_some}
use gsc_fq.Proxy.Server.Limited.{KeepsLimits, build-KeepsLimits}
use gsc_fq.Proxy.Server.Build.{Built, build-Built}

abbrev trim : Bytes → Bytes
trim s = s

-- An address that parses.
abbrev parse_ip : Bytes → Option IpAddr
parse_ip s = if bytes_eq s (codes "10.0.0.1") then some (v4 167772161) else none

abbrev web : ProxySection
web = record {
  local = codes "8080";
  remote = codes "10.0.0.1:80";
  source_ip = none;
  allow_ips = none;
  max_conns_per_ip = none;
  cps_limit = none;
}

abbrev by_name : ProxySection
by_name = record web { remote = codes "80" }

abbrev file : ConfigFile
file = record {
  server = none;
  proxies = web ∷ [];
  reverse_proxies = [];
  has_server = false;
  has_client = false;
}

-- A port alone stands for localhost, which is no IP address.
refused_name :
    build trim parse_ip none (by_name ∷ []) ≡ err (invalid_ip_address (codes "localhost"))
unfolding build add_all add_proxy instance_for local_bind_ip create_socket_addr get_local_port
    get_local_ip get_remote_port get_remote_host split parse_u16 digits_u16 port_of port_behind
    contains
refused_name = refl

abbrev calls : Calls
calls = record {
  socket = ok tt;
  set_reuse_address = ok tt;
  bind = err (codes "in use");
  listen = ok tt;
  set_nonblocking = ok tt;
  from_std = ok tt;
  local_addr = ok (record { ip = v4 0; port = 80 });
  udp_bind = ok tt;
}

in_use : create_optimized_listener calls ≡ err (network (listen_failed (codes "in use")))
unfolding create_optimized_listener
in_use = refl

server_for_file :
    Built trim parse_ip (v4 0) (web ∷ []) (build trim parse_ip (some (v4 0)) (web ∷ []))
unfolding validate check_bind_ip check_proxies check_proxy check_ports check_source_ip is_null
    check_reverses get_local_port get_remote_port get_remote_host split parse_u16 digits_u16 port_of
    port_behind contains
server_for_file = build-Built trim parse_ip file file [] (v4 0) refl

-- Five connections, and two arrivals in a second, for each address.
abbrev guarded : ProxySection
guarded = record web { max_conns_per_ip = some 5; cps_limit = some 2 }

abbrev guarded_file : ConfigFile
guarded_file = record file { proxies = guarded ∷ [] }

abbrev guarded_instance : ProxyInstance
guarded_instance = record {
  bind_addr = record { ip = v4 0; port = 8080 };
  remote_addr = record { ip = v4 167772161; port = 80 };
  source_ip = none;
  connection_handler = new none (some 5) (some 2);
  running = false;
}

abbrev guarded_server : ProxyServer
guarded_server = record { bind_ip = v4 0; proxy_instances = guarded_instance ∷ [] }

abbrev show : IpAddr → Bytes
show ip = []

guarded_valid : validate trim (λ b. is_some (parse_ip b)) guarded_file ≡ ok (guarded_file, [])
unfolding validate check_bind_ip check_proxies check_proxy check_ports check_source_ip is_null
    check_reverses get_local_port get_remote_port get_remote_host split parse_u16 digits_u16 port_of
    port_behind contains
guarded_valid = refl

guarded_built : build trim parse_ip (some (v4 0)) (guarded ∷ []) ≡ ok guarded_server
unfolding build add_all add_proxy instance_for local_bind_ip create_socket_addr get_local_port
    get_local_ip get_remote_port get_remote_host split parse_u16 digits_u16 port_of port_behind
    contains parse_source new
guarded_built = refl

build-KeepsLimits_example :
    (i : ProxyInstance) × (get_elem? guarded_server.proxy_instances 0 ≡ some i)
    × KeepsLimits show guarded i.connection_handler
build-KeepsLimits_example =
    build-KeepsLimits trim parse_ip show guarded_file guarded_file [] (v4 0) guarded_server 0
      guarded guarded_valid guarded_built refl
