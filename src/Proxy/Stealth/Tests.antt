-- ===== src/Proxy/Stealth/Tests.antt =====
-- src/proxy/stealth_connection_handler.rs: runs of the handler, and its theorems at inputs.
use gsc_fq.Common.{◌≤◌, ◌≡◌, refl, true, none, some, List, [], ◌∷◌, arith, Bytes}
use gsc_fq.Common.Maps
use gsc_fq.Common.Net.{IpAddr, v4, ip_eq}
use gsc_fq.Common.Results.{ok, err}
use gsc_fq.Proxy.Stealth.{
  Handler, broken, completed, counted_in, register_disconnection, handle_udp_packet, forward_if_ok,
  forward_udp, not_in_allow_list, max_connections, new, acl, admit, stats_of, check_security,
  begin_connection, end_connection,
}
use gsc_fq.Proxy.Stealth.Limits.{
  Server, Reach, here, next, accepted, start, open_from, open_from-le_max,
}
use gsc_fq.Proxy.Stealth.Rate.Events.{
  Event, arrives, ends, datagram, noted, run_event, run_events, admitted_from,
}
use gsc_fq.Proxy.Stealth.Rate.{admitted_from-le_limit}
use gsc_fq.Proxy.Stealth.ActiveCount.{begin-end_active, left_active}
use gsc_fq.Proxy.Stealth.Datagrams.{Datagram, receive, datagrams_exhaust}

-- A `Display` that is enough for the runs.
abbrev show : IpAddr → Bytes
show ip = b'x' ∷ []

abbrev client : IpAddr
client = v4 0x0a00_0001

limited : Handler
limited = new none (some 1) none

first : (begin_connection show limited (some client) 0).1 ≡ ok tt
unfolding limited new begin_connection check_security Maps.get Maps.insert acl ip_eq admit stats_of
first = refl

second :
    (begin_connection show (begin_connection show limited (some client) 0).0 (some client) 5).1
    ≡ err max_connections
unfolding limited new begin_connection check_security Maps.get Maps.insert acl ip_eq admit stats_of
second = refl

unlisted :
    (check_security show (new (some ((b'y' ∷ []) ∷ [])) none none) client 0).1
    ≡ err not_in_allow_list
unfolding new check_security acl
unlisted = refl

-- One connection is let in and stays.
busy : Server
unfolding limited
busy = record { handler = (begin_connection show limited (some client) 0).0; opens = client ∷ [] }

begun : begin_connection show (start none 1 none).handler (some client) 0 ≡ (busy.handler, ok tt)
unfolding busy limited new begin_connection check_security Maps.get Maps.insert acl ip_eq admit
    stats_of
begun = refl

busy_reached : Reach show (start none 1 none) busy
unfolding busy
busy_reached = next here (accepted client 0 begun refl)

open_from-le_max_example : open_from client busy.opens ≤ 1
open_from-le_max_example = open_from-le_max show none 1 none busy_reached client

-- Three connections, of which one ends before the third comes, and a datagram a second later.
abbrev events : List Event
events =
    arrives client 10
    ∷ arrives client 20
    ∷ ends client completed
    ∷ arrives client 30
    ∷ datagram (record { bind = some 1; connect = true; send = true })
        (record { ip = client; port = 53 }) 1_000_000_015
    ∷ []

admitted_from-le_limit_example :
    admitted_from client 16 (run_events show (new none (some 9) (some 2), []) events).1 ≤ 2
admitted_from-le_limit_example =
    admitted_from-le_limit show 2 none (some 9) events (omega arith) client 16

-- In the second from 16 on the connection at 20 and the datagram; the one at 30 is refused.
two_of_three :
    admitted_from client 16 (run_events show (new none (some 9) (some 2), []) events).1 ≡ 2
unfolding run_events run_event noted admitted_from new begin_connection counted_in end_connection
    register_disconnection handle_udp_packet forward_if_ok forward_udp check_security Maps.get
    Maps.insert acl ip_eq admit stats_of
two_of_three = refl

begin-end_active_example :
    (end_connection
      (begin_connection show limited (some client) 0).0
      (some client)
      broken).stats.active
    ≡ left_active broken limited.stats.active
unfolding limited new begin_connection check_security Maps.get Maps.insert acl ip_eq admit stats_of
begin-end_active_example =
    begin-end_active show limited (begin_connection show limited (some client) 0).0 (some client) 0
      broken (omega arith) refl

dns : Datagram
dns = record {
  client = record { ip = client; port = 53 };
  net = record { bind = some 1; connect = true; send = true };
  at = 7;
}

datagrams_exhaust_example :
    (begin_connection show (receive show limited (dns ∷ [])) (some client) 9).1
    ≡ err max_connections
unfolding limited new dns
datagrams_exhaust_example =
    datagrams_exhaust show 1 limited client (dns ∷ []) 9
      (record { limited = refl; unlisted = refl; unrated = refl }) (refl, tt) (omega arith)
