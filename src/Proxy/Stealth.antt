-- ===== src/Proxy/Stealth.antt =====
-- src/proxy/stealth_connection_handler.rs: admission of connections and datagrams by address.
-- An `Instant` is a number of nanoseconds and an argument of the call. `cps_limit` holds the value
-- that the code compares with, `limit as usize`. `to_string` is the standard library's `Display`
-- of an address. What the network answers is an argument: `Ended`, `Relay`.
pub mod Checks
pub mod Limits
pub mod Rate
pub mod ActiveCount
pub mod Datagrams
pub mod Statistics
mod Tests
use gsc_fq.Common.{
  ℕ, suc, ◌+◌, ◌-◌, ◌%◌, ◌^◌, Bool, true, false, ◌||◌, Option, none, some, List, [], ◌∷◌, ◌++◌, ltb,
  leb, if◌then◌else◌, Eq, Bytes, length, keep, bytes_eq, codes,
}
use gsc_fq.Common.Maps
use gsc_fq.Common.Maps.{Map}
use gsc_fq.Common.Net.{IpAddr, SocketAddr, ip_key, socket_key}
use gsc_fq.Common.Results.{Result, ok, err}

abbrev pub u64_mod : ℕ
u64_mod = 2 ^ 64

-- One second.
abbrev pub window : ℕ
window = 1_000_000_000

pub record IpSecurityStats : Type 0 where
  pub active_connections : ℕ
  pub recent_connections : List ℕ

abbrev pub new_stats : IpSecurityStats
new_stats = record { active_connections = 0; recent_connections = [] }

pub record Counters : Type 0 where
  pub total : ℕ
  pub active : ℕ
  pub successful : ℕ
  pub failed : ℕ
  pub bytes_transferred : ℕ

pub record Handler : Type 0 where
  pub stats : Counters
  pub udp_sessions : Map SocketAddr ℕ
  pub allow_ips : Option (List Bytes)
  pub max_conns_per_ip : Option ℕ
  pub cps_limit : Option ℕ
  pub ip_stats : Map IpAddr IpSecurityStats

pub data Denial : Type 0 where
  not_in_allow_list max_connections rate_limit bind_failed connect_failed send_failed : Denial

unfoldable pub new : Option (List Bytes) → Option ℕ → Option ℕ → Handler
new allow max_conns cps = record {
  stats = record { total = 0; active = 0; successful = 0; failed = 0; bytes_transferred = 0 };
  udp_sessions = Maps.empty;
  allow_ips = allow;
  max_conns_per_ip = max_conns;
  cps_limit = cps;
  ip_stats = Maps.empty;
}

-- The loop over the patterns, with its `break`.
pub match_found : Bytes → List Bytes → Bool
match_found ip_str [] = false
match_found ip_str (p ∷ ps) =
    bytes_eq ip_str p
    || bytes_eq p (codes "0.0.0.0/0")
    || bytes_eq p (codes "::/0")
    || match_found ip_str ps

pub acl : Option (List Bytes) → Bytes → Bool
unfolding match_found
acl none ip_str = true
acl (some allowed) ip_str = match_found ip_str allowed

-- The entry is younger than one second; `duration_since` stops at 0.
abbrev pub fresh : ℕ → ℕ → Bool
fresh now t = ltb (now - t) window

-- The CPS check, and the increment behind both checks.
pub count_connection : Option ℕ → ℕ → IpSecurityStats → IpSecurityStats × Result (Unit {0}) Denial
count_connection none now s = (record s { active_connections = suc s.active_connections }, ok tt)
count_connection (some limit) now s =
    let recent = keep (fresh now) s.recent_connections in
    if leb limit (length recent)
    then (record s { recent_connections = recent }, err rate_limit)
    else (
      record {
        active_connections = suc s.active_connections;
        recent_connections = recent ++ now ∷ [];
      },
      ok tt,
    )

-- The part of `check_security` that holds the lock.
pub admit : Option ℕ → Option ℕ → ℕ → IpSecurityStats → IpSecurityStats × Result (Unit {0}) Denial
unfolding count_connection
admit none cps now s = count_connection cps now s
admit (some max_active) cps now s =
    if leb max_active s.active_connections
    then (s, err max_connections)
    else count_connection cps now s

abbrev pub is_some {ℓ} : {A : Type ℓ} → Option A → Bool
is_some none = false
is_some (some a) = true

-- `entry(ip).or_insert_with(IpSecurityStats::new)`.
pub stats_of : Handler → IpAddr → IpSecurityStats
stats_of h ip = elim (Maps.get ip h.ip_stats) [ none ↦ new_stats | some s ↦ s ]

abbrev pub with_stats : Handler → IpAddr → IpSecurityStats → Handler
with_stats h ip s = record h { ip_stats = Maps.insert ip s h.ip_stats }

-- The changed entry stays in the map, whether the connection is let in or not.
pub admit_entry : Handler → IpAddr → ℕ → Handler × Result (Unit {0}) Denial
admit_entry h ip now =
    let (s, r) = admit h.max_conns_per_ip h.cps_limit now (stats_of h ip) in (with_stats h ip s, r)

pub check_security : (IpAddr → Bytes) → Handler → IpAddr → ℕ → Handler × Result (Unit {0}) Denial
unfolding admit_entry
check_security to_string h ip now =
    if acl h.allow_ips (to_string ip)
    then if is_some h.max_conns_per_ip || is_some h.cps_limit
      then admit_entry h ip now
      else (h, ok tt)
    else (h, err not_in_allow_list)

pub register_disconnection : Handler → IpAddr → Handler
register_disconnection h ip =
    if is_some h.max_conns_per_ip
    then elim (Maps.get ip h.ip_stats) [
      | none ↦ h
      | some s ↦ with_stats h ip (record s { active_connections = s.active_connections - 1 })
    ]
    else h

-- How a connection that was let in ends: `apply_tcp_optimizations` fails, or the stealth handler
-- returns `Ok` or `Err`.
pub data Ended : Type 0 where
  not_optimized completed broken : Ended

-- `fetch_add(1)` and `fetch_sub(1)` of an `AtomicU64`.
abbrev pub increment : ℕ → ℕ
increment n = (n + 1) % u64_mod

abbrev pub decrement : ℕ → ℕ
decrement n = (n + u64_mod - 1) % u64_mod

pub opened : Handler → Handler
opened h = record h {
  stats = record h.stats { total = increment h.stats.total; active = increment h.stats.active };
}

-- The check that `if let Some(addr) = client_addr` guards, and the counters.
pub counted_in : Handler × Result (Unit {0}) Denial → Handler × Result (Unit {0}) Denial
unfolding opened
counted_in (h, ok _) = (opened h, ok tt)
counted_in (h, err e) = (h, err e)

-- `handle_connection` up to its first wait for the network. `peer` is `peer_addr().ok()`.
pub begin_connection :
    (IpAddr → Bytes) → Handler → Option IpAddr → ℕ → Handler × Result (Unit {0}) Denial
unfolding counted_in
begin_connection to_string h none now = counted_in (h, ok tt)
begin_connection to_string h (some ip) now = counted_in (check_security to_string h ip now)

-- `if let Some(addr) = client_addr { self.register_disconnection(addr.ip()) }`.
abbrev pub release : Handler → Option IpAddr → Handler
release h none = h
release h (some ip) = register_disconnection h ip

-- The rest of `handle_connection`: `?` on the optimizations, then the two arms of the match.
pub end_connection : Handler → Option IpAddr → Ended → Handler
end_connection h peer not_optimized = h
end_connection h peer broken =
    let h' = release h peer in
    record h' { stats = record h'.stats { failed = increment h'.stats.failed } }
end_connection h peer completed =
    let h' =
      release (record h { stats = record h.stats { successful = increment h.stats.successful } })
        peer in
    record h' { stats = record h'.stats { active = decrement h'.stats.active } }

-- What the sockets answer: `bind` gives a new socket, `connect` and `send` succeed or not.
pub record Relay : Type 0 where
  pub bind : Option ℕ
  pub connect : Bool
  pub send : Bool

abbrev sent : Bool → Result (Unit {0}) Denial
sent true = ok tt
sent false = err send_failed

-- The session of a client, created at its first datagram.
pub forward_udp : Relay → Handler → SocketAddr → Handler × Result (Unit {0}) Denial
forward_udp net h client = elim (Maps.get client h.udp_sessions) [
  | some socket ↦ (h, sent net.send)
  | none ↦ elim net.bind [
    | none ↦ (h, err bind_failed)
    | some socket ↦
        if net.connect
        then (record h { udp_sessions = Maps.insert client socket h.udp_sessions }, sent net.send)
        else (h, err connect_failed)
  ]
]

pub forward_if_ok :
    Relay → SocketAddr → Handler × Result (Unit {0}) Denial → Handler × Result (Unit {0}) Denial
unfolding forward_udp
forward_if_ok net client (h, ok _) = forward_udp net h client
forward_if_ok net client (h, err e) = (h, err e)

pub handle_udp_packet :
    (IpAddr → Bytes) → Relay → Handler → SocketAddr → ℕ → Handler × Result (Unit {0}) Denial
unfolding forward_if_ok
handle_udp_packet to_string net h client now =
    forward_if_ok net client (check_security to_string h client.ip now)

-- The end of the relay task of a session.
pub relay_ended : Handler → SocketAddr → Handler
relay_ended h client = record h { udp_sessions = Maps.remove client h.udp_sessions }

pub record StealthConnectionStats : Type 0 where
  pub total_connections : ℕ
  pub active_connections : ℕ
  pub successful_connections : ℕ
  pub failed_connections : ℕ
  pub bytes_transferred : ℕ

pub snapshot : Counters → StealthConnectionStats
snapshot c = record {
  total_connections = c.total;
  active_connections = c.active;
  successful_connections = c.successful;
  failed_connections = c.failed;
  bytes_transferred = c.bytes_transferred;
}

pub get_connection_stats : Handler → StealthConnectionStats
unfolding snapshot
get_connection_stats h = snapshot h.stats
