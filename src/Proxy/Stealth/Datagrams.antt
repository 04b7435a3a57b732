-- ===== src/Proxy/Stealth/Datagrams.antt =====
-- src/proxy/stealth_connection_handler.rs: datagrams take the places of connections for good.
use gsc_fq.Common.{
  ℕ, suc, ◌+◌, ◌≤◌, ◌<◌, ◌≡◌, none, some, List, [], ◌∷◌, arith, min, Bytes, length, All, leb,
  Bool-cases, inl, inr,
}
use mathlib.Core.Path.{subst}
use gsc_fq.Common.Net.{IpAddr, SocketAddr, ip_key, ip_eq_iff}
use gsc_fq.Common.Results.{Result, ok, err}
use gsc_fq.Proxy.Stealth.{
  Handler, Relay, Denial, max_connections, admit, count_connection, check_security, admit_entry,
  acl, begin_connection, counted_in, handle_udp_packet, forward_udp, forward_if_ok,
}
use gsc_fq.Proxy.Stealth.Checks.{
  active, Checks, check_security-Checks, handle_udp_packet-SameLimits, active-SameLimits,
}

-- A datagram: its client, what the sockets answer, and when it comes.
pub record Datagram : Type 0 where
  pub client : SocketAddr
  pub net : Relay
  pub at : ℕ

pub receive : (IpAddr → Bytes) → Handler → List Datagram → Handler
receive to_string h [] = h
receive to_string h (d ∷ ds) =
    receive to_string (handle_udp_packet to_string d.net h d.client d.at).0 ds

-- A handler that limits connections only: no allow list, no rate.
pub record OnlyLimits (m : ℕ) (h : Handler) : Type 0 where
  pub limited : h.max_conns_per_ip ≡ some m
  pub unlisted : h.allow_ips ≡ none
  pub unrated : h.cps_limit ≡ none

check_full :
    (to_string : IpAddr → Bytes) (m : ℕ) (h : Handler) (ip : IpAddr) (now : ℕ)
    → OnlyLimits m h
    → m ≤ active h ip
    → (check_security to_string h ip now).1 ≡ err max_connections
unfolding check_security admit_entry admit acl
check_full to_string m h ip now o full = ground (arith, o)

check_room :
    (to_string : IpAddr → Bytes) (m : ℕ) (h : Handler) (ip : IpAddr) (now : ℕ)
    → OnlyLimits m h
    → active h ip < m
    → (check_security to_string h ip now).1 ≡ ok tt
unfolding check_security admit_entry admit acl count_connection
check_room to_string m h ip now o room = ground (arith, o)

check_keeps :
    (to_string : IpAddr → Bytes) (m : ℕ) (h : Handler) (ip : IpAddr) (now : ℕ)
    → OnlyLimits m h
    → OnlyLimits m (check_security to_string h ip now).0
unfolding check_security admit_entry
check_keeps to_string m h ip now o = ground (arith, o)

-- Each datagram takes a place, until there is none left.
check_takes_place :
    (to_string : IpAddr → Bytes) (m : ℕ) (h : Handler) (ip : IpAddr) (now : ℕ)
    → OnlyLimits m h
    → min m (suc (active h ip)) ≤ active (check_security to_string h ip now).0 ip
check_takes_place to_string m h ip now o =
    places (check_security to_string h ip now)
      (check_security-Checks to_string m h ip now o.limited) (check_room to_string m h ip now o)
  where
    places :
        (p : Handler × Result (Unit {0}) Denial)
        → Checks m h ip p
        → (active h ip < m → p.1 ≡ ok tt)
        → min m (suc (active h ip)) ≤ active p.0 ip
    places (h', r) (_, inl (_, _, up)) room = ground (arith, up ip, ip_eq_iff ip ip)
    places (h', r) (_, inr (d, e, same)) room = elim (Bool-cases (leb m (active h ip))) [
      | inl full ↦ ground (arith, same ip)
      | inr free ↦ let e' : r ≡ ok tt = room (ground arith) in absurd (cc)
    ]

udp_takes_place :
    (to_string : IpAddr → Bytes) (m : ℕ) (h : Handler) (d : Datagram)
    → OnlyLimits m h
    → min m (suc (active h d.client.ip))
      ≤ active (handle_udp_packet to_string d.net h d.client d.at).0 d.client.ip
udp_takes_place to_string m h d o = omega (
  arith,
  check_takes_place to_string m h d.client.ip d.at o,
  active-SameLimits (check_security to_string h d.client.ip d.at).0
      (handle_udp_packet to_string d.net h d.client d.at).0 d.client.ip
      (handle_udp_packet-SameLimits to_string d.net h d.client d.at),
)

udp_takes_place_at :
    (to_string : IpAddr → Bytes) (m : ℕ) (h : Handler) (d : Datagram) (ip : IpAddr)
    → OnlyLimits m h
    → d.client.ip ≡ ip
    → min m (suc (active h ip)) ≤ active (handle_udp_packet to_string d.net h d.client d.at).0 ip
udp_takes_place_at to_string m h d ip o same =
    subst
      (λ i.
        min m (suc (active h i)) ≤ active (handle_udp_packet to_string d.net h d.client d.at).0 i)
      same (udp_takes_place to_string m h d o)

forward_keeps :
    (m : ℕ) (net : Relay) (h : Handler) (client : SocketAddr)
    → OnlyLimits m h
    → OnlyLimits m (forward_udp net h client).0
unfolding forward_udp
forward_keeps m net h client o = ground (arith, o)

udp_keeps :
    (to_string : IpAddr → Bytes) (m : ℕ) (h : Handler) (d : Datagram)
    → OnlyLimits m h
    → OnlyLimits m (handle_udp_packet to_string d.net h d.client d.at).0
unfolding handle_udp_packet
udp_keeps to_string m h d o =
    forwarded (check_security to_string h d.client.ip d.at)
      (check_keeps to_string m h d.client.ip d.at o)
  where
    forwarded :
        (p : Handler × Result (Unit {0}) Denial)
        → OnlyLimits m p.0
        → OnlyLimits m (forward_if_ok d.net d.client p).0
    forwarded (h', ok _) k = forward_keeps m d.net h' d.client k
    forwarded (h', err e) k = k

abbrev pub From : IpAddr → List Datagram → Type 0
From ip = All (λ d. d.client.ip ≡ ip)

receive_takes_places :
    (to_string : IpAddr → Bytes) (m : ℕ) (h : Handler) (ip : IpAddr) (ds : List Datagram)
    → OnlyLimits m h
    → From ip ds
    → (min m (active h ip + length ds) ≤ active (receive to_string h ds) ip)
      × OnlyLimits m (receive to_string h ds)
unfolding receive
receive_takes_places to_string m h ip [] o from = (omega arith, o)
receive_takes_places to_string m h ip (d ∷ ds) o (same, from) =
    let (taken, keeps) =
      receive_takes_places to_string m (handle_udp_packet to_string d.net h d.client d.at).0 ip ds
        (udp_keeps to_string m h d o) from in
    (omega (arith, taken, udp_takes_place_at to_string m h d ip o same), keeps)

begin_full :
    (to_string : IpAddr → Bytes) (m : ℕ) (h : Handler) (ip : IpAddr) (now : ℕ)
    → OnlyLimits m h
    → m ≤ active h ip
    → (begin_connection to_string h (some ip) now).1 ≡ err max_connections
unfolding begin_connection
begin_full to_string m h ip now o full =
    refused (check_security to_string h ip now) (check_full to_string m h ip now o full)
  where
    refused :
        (p : Handler × Result (Unit {0}) Denial)
        → p.1 ≡ err max_connections
        → (counted_in p).1 ≡ err max_connections
    refused (h', ok u) e = absurd (cc)
    refused (h', err d) e = e

-- In a handler that only limits connections to `m` for each address, `m` datagrams of an address
-- use up its places: however few connections it has open, its next connection is refused, and so it
-- stays after any further datagrams.
pub datagrams_exhaust :
    (to_string : IpAddr → Bytes) (m : ℕ) (h : Handler) (ip : IpAddr) (ds : List Datagram) (now : ℕ)
    → OnlyLimits m h
    → From ip ds
    → m ≤ length ds
    → (begin_connection to_string (receive to_string h ds) (some ip) now).1 ≡ err max_connections
datagrams_exhaust to_string m h ip ds now o from many =
    let (taken, keeps) = receive_takes_places to_string m h ip ds o from in
    begin_full to_string m (receive to_string h ds) ip now keeps (omega (arith, taken))
