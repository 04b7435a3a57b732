-- ===== src/Proxy/Stealth/Rate/Events.antt =====
-- src/proxy/stealth_connection_handler.rs: runs of a handler, with what it lets in.
use gsc_fq.Common.{ℕ, ◌+◌, ◌≤◌, ◌&&◌, ltb, some, List, [], ◌∷◌, if◌then◌else◌, Bytes, leb}
use gsc_fq.Common.Net.{IpAddr, SocketAddr, ip_key}
use gsc_fq.Common.Results.{Result, ok, err}
use gsc_fq.Proxy.Stealth.{
  Ended, Relay, begin_connection, end_connection, handle_udp_packet, relay_ended, Handler, Denial,
}

-- The admissions so far, newest first.
abbrev pub Log : Type 0
Log = List (IpAddr × ℕ)

unfoldable pub noted : IpAddr → ℕ → Log → Handler × Result (Unit {0}) Denial → Handler × Log
noted ip now log (h, ok _) = (h, (ip, now) ∷ log)
noted ip now log (h, err e) = (h, log)

-- What happens to a handler: a connection or a datagram arrives, a connection ends, or the relay of
-- a datagram session does. Tasks interleave at these points.
pub data Event : Type 0 where
  arrives : IpAddr → ℕ → Event
  ends : IpAddr → Ended → Event
  datagram : Relay → SocketAddr → ℕ → Event
  session_over : SocketAddr → Event

-- One event; connections that are let in and datagrams that are sent on are noted.
unfoldable pub run_event : (IpAddr → Bytes) → Handler × Log → Event → Handler × Log
unfolding noted
run_event to_string (h, log) (arrives ip now) =
    noted ip now log (begin_connection to_string h (some ip) now)
run_event to_string (h, log) (ends ip how) = (end_connection h (some ip) how, log)
run_event to_string (h, log) (datagram net client now) =
    noted client.ip now log (handle_udp_packet to_string net h client now)
run_event to_string (h, log) (session_over client) = (relay_ended h client, log)

unfoldable pub run_events : (IpAddr → Bytes) → Handler × Log → List Event → Handler × Log
unfolding run_event
run_events to_string s [] = s
run_events to_string s (e ∷ es) = run_events to_string (run_event to_string s e) es

-- The times of arrivals do not fall.
abbrev pub InOrder : ℕ → List Event → Type 0
InOrder t [] = Unit
InOrder t (arrives ip now ∷ es) = (t ≤ now) × InOrder now es
InOrder t (ends ip how ∷ es) = InOrder t es
InOrder t (datagram net client now ∷ es) = (t ≤ now) × InOrder now es
InOrder t (session_over client ∷ es) = InOrder t es

-- The admissions of `ip` in the second, of 10^9 nanoseconds, that begins at `from`.
unfoldable pub admitted_from : IpAddr → ℕ → Log → ℕ
admitted_from ip from [] = 0
admitted_from ip from ((j, t) ∷ log) =
    (if ip_key.beq j ip && (leb from t && ltb t (from + 1_000_000_000)) then 1 else 0)
    + admitted_from ip from log
