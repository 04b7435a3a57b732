-- ===== src/Proxy/Server.antt =====
-- src/proxy/server.rs: the forward proxy server, its builder and its instances. `trim` and `parse_ip`
-- (`parse::<IpAddr>()`) are the standard library's, and what the operating system answers is an
-- argument. The handler of an instance, behind an Arc, is the state that it starts with.
use gsc_fq.Common.{
  ℕ, ◌+◌, Bool, true, false, Option, none, some, List, [], ◌∷◌, ◌++◌, map, Bytes, codes, length,
  count_if,
}
use gsc_fq.Common.Net.{IpAddr, v4, v6, SocketAddr}
use gsc_fq.Common.Results.{Result, ok, err, ◌>>=◌, map_err}
use gsc_fq.Config.Sections.{
  ProxySection, InvalidConfigValue, get_local_port, get_local_ip, get_remote_host, get_remote_port,
}
use gsc_fq.Error.{
  NetworkError, listen_failed, invalid_socket_option, connection_failed, connection_timeout,
  AppError, network, io,
}
use gsc_fq.Proxy.Stealth.{Handler, new}
pub mod Instances
pub mod Build
pub mod Limited
pub mod Status
pub mod Tests

pub record ProxyInstance : Type 0 where
  pub bind_addr : SocketAddr
  pub remote_addr : SocketAddr
  pub source_ip : Option IpAddr
  pub connection_handler : Handler
  pub running : Bool

pub record ProxyServer : Type 0 where
  pub bind_ip : IpAddr
  pub proxy_instances : List ProxyInstance

-- Why a proxy cannot be added: a value of its section, or an address that is no IP address.
pub data Refusal : Type 0 where
  invalid_value : InvalidConfigValue → Refusal
  invalid_ip_address : Bytes → Refusal

pub new_server : IpAddr → ProxyServer
new_server ip = record { bind_ip = ip; proxy_instances = [] }

-- `ProxyInstance::new`.
pub new_instance :
    IpAddr
    → ℕ
    → SocketAddr
    → Option IpAddr
    → Option (List Bytes)
    → Option ℕ
    → Option ℕ
    → ProxyInstance
unfolding new
new_instance ip port remote source allow max_conns cps = record {
  bind_addr = record { ip = ip; port = port };
  remote_addr = remote;
  source_ip = source;
  connection_handler = new allow max_conns cps;
  running = false;
}

unfoldable pub placeholder_from : ProxyInstance → ProxyInstance
placeholder_from original = record {
  bind_addr = record { ip = v4 0; port = 0 };
  remote_addr = original.remote_addr;
  source_ip = original.source_ip;
  connection_handler = original.connection_handler;
  running = false;
}

abbrev pub parsed : Bytes → Option IpAddr → Result IpAddr Refusal
parsed text none = err (invalid_ip_address text)
parsed text (some ip) = ok ip

module _ (trim : Bytes → Bytes) (parse_ip : Bytes → Option IpAddr) where
  unfoldable pub parse_ip_address : Bytes → Result IpAddr Refusal
  parse_ip_address text = parsed (trim text) (parse_ip (trim text))

  unfoldable pub create_socket_addr : Bytes → ℕ → Result SocketAddr Refusal
  create_socket_addr host port =
      parsed host (parse_ip host) >>= λ ip. ok (record { ip = ip; port = port })

  -- The address to listen at: that of the section, or the server's.
  unfoldable pub local_bind_ip : IpAddr → Option Bytes → Result IpAddr Refusal
  unfolding parse_ip_address
  local_bind_ip default none = ok default
  local_bind_ip default (some text) = parse_ip_address text

  unfoldable pub parse_source : Option Bytes → Result (Option IpAddr) Refusal
  unfolding parse_ip_address
  parse_source none = ok none
  parse_source (some text) = parse_ip_address text >>= λ ip. ok (some ip)

  -- The instance that `add_proxy` adds.
  unfoldable pub instance_for : IpAddr → ProxySection → Result ProxyInstance Refusal
  unfolding local_bind_ip parse_source create_socket_addr new_instance
  instance_for default p = do
    local_port ← map_err invalid_value (get_local_port p)
    local_ip ← local_bind_ip default (get_local_ip p)
    remote_host ← map_err invalid_value (get_remote_host p)
    remote_port ← map_err invalid_value (get_remote_port p)
    remote_addr ← create_socket_addr remote_host remote_port
    source_ip ← parse_source p.source_ip
    ok (
        new_instance local_ip local_port remote_addr source_ip p.allow_ips p.max_conns_per_ip
          p.cps_limit)

  unfoldable pub add_proxy : ProxyServer → ProxySection → Result ProxyServer Refusal
  unfolding instance_for
  add_proxy s p = instance_for s.bind_ip p >>= λ i.
      ok (record s { proxy_instances = s.proxy_instances ++ (i ∷ []) })

  unfoldable pub add_all : ProxyServer → List ProxySection → Result ProxyServer Refusal
  unfolding add_proxy
  add_all s [] = ok s
  add_all s (p ∷ ps) = add_proxy s p >>= λ s'. add_all s' ps

  -- `ProxyServerBuilder::build`, at 127.0.0.1 where no address is given.
  unfoldable pub build : Option IpAddr → List ProxySection → Result ProxyServer Refusal
  unfolding add_all new_server
  build none configs = add_all (new_server (v4 2130706433)) configs
  build (some ip) configs = add_all (new_server ip) configs

pub record ServerStatus : Type 0 where
  pub bind_ip : IpAddr
  pub total_instances : ℕ
  pub active_instances : ℕ

unfoldable pub get_status : ProxyServer → ServerStatus
get_status s = record {
  bind_ip = s.bind_ip;
  total_instances = length s.proxy_instances;
  active_instances = count_if (λ (i : ProxyInstance). i.running) s.proxy_instances;
}

-- What the operating system answers to the calls that open a listener, and the UDP socket.
pub record Calls : Type 0 where
  pub socket : Result (Unit {0}) Bytes
  pub set_reuse_address : Result (Unit {0}) Bytes
  pub bind : Result (Unit {0}) Bytes
  pub listen : Result (Unit {0}) Bytes
  pub set_nonblocking : Result (Unit {0}) Bytes
  pub from_std : Result (Unit {0}) Bytes
  pub local_addr : Result SocketAddr Bytes
  pub udp_bind : Result (Unit {0}) Bytes

abbrev pub listening : {A : Type 0} → Result A Bytes → Result A AppError
listening r = map_err (λ m. network (listen_failed m)) r

unfoldable pub create_optimized_listener : Calls → Result (Unit {0}) AppError
create_optimized_listener c = do
  _ ← map_err io c.socket
  _ ← map_err (λ m. network (invalid_socket_option m)) c.set_reuse_address
  _ ← listening c.bind
  _ ← listening c.listen
  _ ← listening c.set_nonblocking
  listening c.from_std

-- What the listener and the UDP socket return until the shutdown, and the tasks for it.
pub data Arrival : Type 0 where
  connection : SocketAddr → Arrival
  accept_error : Bytes → Arrival
  datagram : Bytes → SocketAddr → Arrival
  udp_error : Bytes → Arrival

pub data Task : Type 0 where
  handle_connection : SocketAddr → Task
  handle_udp_packet : Bytes → SocketAddr → Task

unfoldable pub spawned : List Arrival → List Task
spawned [] = []
spawned (connection a ∷ rest) = handle_connection a ∷ spawned rest
spawned (accept_error m ∷ rest) = spawned rest
spawned (datagram b a ∷ rest) = handle_udp_packet b a ∷ spawned rest
spawned (udp_error m ∷ rest) = spawned rest

-- `ProxyInstance::start`, until the shutdown: the tasks, unless a listener cannot be made.
unfoldable pub opened : Calls → Result (Unit {0}) AppError
unfolding create_optimized_listener
opened c = do _ ← create_optimized_listener c; _ ← listening c.local_addr; listening c.udp_bind

abbrev pub stopped :
    ProxyInstance
    → List Arrival
    → Result (Unit {0}) AppError
    → ProxyInstance × Result (List Task) AppError
unfolding spawned
stopped i arrivals (err e) = (i, err e)
stopped i arrivals (ok _) = (record i { running = false }, ok (spawned arrivals))

unfoldable pub start_instance :
    Calls → List Arrival → ProxyInstance → ProxyInstance × Result (List Task) AppError
unfolding opened stopped
start_instance c arrivals i = stopped (record i { running = true }) arrivals (opened c)

-- `ProxyServer::start` up to the shutdown: a placeholder for each instance, which its task takes.
unfoldable pub start : ProxyServer → ProxyServer × List ProxyInstance
unfolding placeholder_from
start s = (record s { proxy_instances = map placeholder_from s.proxy_instances }, s.proxy_instances)

-- How an attempt to connect goes: the socket, the bind to the source address, the connection with the
-- time that all took, or none of it in three seconds.
pub record Attempt : Type 0 where
  pub in_time : Bool
  pub new_socket : Result (Unit {0}) Bytes
  pub bind_source : Result (Unit {0}) Bytes
  pub connect : Result ℕ Bytes

abbrev pub connecting : {A : Type 0} → Result A Bytes → Result A AppError
connecting r = map_err (λ m. network (connection_failed m)) r

abbrev pub connect_from : Option IpAddr → Attempt → Result ℕ AppError
connect_from none a = connecting a.connect
connect_from (some ip) a =
    connecting a.new_socket >>= λ _. connecting a.bind_source >>= λ _. connecting a.connect

unfoldable pub test_remote_connectivity : ProxyInstance → Attempt → Result ℕ AppError
test_remote_connectivity i a = elim a.in_time [
  | true ↦ connect_from i.source_ip a
  | false ↦ err (network connection_timeout)
]
