-- ===== src/Proxy/Stealth/Statistics.antt =====
-- src/proxy/stealth_connection_handler.rs: what the statistics of a handler never count.
use gsc_fq.Common.{ℕ, ◌≡◌, refl, sym, ap, ◌∙◌, Option, some, List, [], arith, Bytes}
use gsc_fq.Common.Net.{IpAddr, SocketAddr}
use gsc_fq.Common.Results.{Result, ok, err}
use gsc_fq.Proxy.Stealth.{
  Handler, Counters, Denial, Ended, not_optimized, completed, broken, Relay, new, opened,
  counted_in, begin_connection, end_connection, check_security, register_disconnection, forward_udp,
  forward_if_ok, handle_udp_packet, relay_ended, get_connection_stats, snapshot,
}
use gsc_fq.Proxy.Stealth.Limits.{
  Server, Step, accepted, refused, ended, datagram, session_over, Reach, here, next,
}
use gsc_fq.Proxy.Stealth.ActiveCount.{register_keeps_stats, check_keeps_stats}

abbrev moved : Handler → ℕ
moved h = h.stats.bytes_transferred

counted_in-moved : (p : Handler × Result (Unit {0}) Denial) → moved (counted_in p).0 ≡ moved p.0
unfolding counted_in opened
counted_in-moved (h, ok _) = refl
counted_in-moved (h, err e) = refl

begin_connection-moved :
    (to_string : IpAddr → Bytes) (h : Handler) (ip : IpAddr) (now : ℕ)
    → moved (begin_connection to_string h (some ip) now).0 ≡ moved h
unfolding begin_connection
begin_connection-moved to_string h ip now =
    counted_in-moved (check_security to_string h ip now)
    ∙ ap (λ (c : Counters). c.bytes_transferred) (check_keeps_stats to_string h ip now)

released : (h : Handler) (ip : IpAddr) → moved (register_disconnection h ip) ≡ moved h
released h ip = ap (λ (c : Counters). c.bytes_transferred) (register_keeps_stats h ip)

end_connection-moved :
    (h : Handler) (ip : IpAddr) (how : Ended) → moved (end_connection h (some ip) how) ≡ moved h
unfolding end_connection
end_connection-moved h ip not_optimized = refl
end_connection-moved h ip completed = released _ ip
end_connection-moved h ip broken = released h ip

forward_udp-moved :
    (net : Relay) (h : Handler) (client : SocketAddr) → moved (forward_udp net h client).0 ≡ moved h
unfolding forward_udp
forward_udp-moved net h client = ground arith

forward_if_ok-moved :
    (net : Relay) (client : SocketAddr) (p : Handler × Result (Unit {0}) Denial)
    → moved (forward_if_ok net client p).0 ≡ moved p.0
unfolding forward_if_ok
forward_if_ok-moved net client (h, ok _) = forward_udp-moved net h client
forward_if_ok-moved net client (h, err e) = refl

handle_udp_packet-moved :
    (to_string : IpAddr → Bytes) (net : Relay) (h : Handler) (client : SocketAddr) (now : ℕ)
    → moved (handle_udp_packet to_string net h client now).0 ≡ moved h
unfolding handle_udp_packet
handle_udp_packet-moved to_string net h client now =
    forward_if_ok-moved net client (check_security to_string h client.ip now)
    ∙ ap (λ (c : Counters). c.bytes_transferred) (check_keeps_stats to_string h client.ip now)

module _ (to_string : IpAddr → Bytes) where
  Step-moved : {s t : Server} → Step to_string s t → moved t.handler ≡ moved s.handler
  unfolding relay_ended
  Step-moved {s} {t} (accepted ip now e o) =
      sym (ap (λ (p : Handler × Result (Unit {0}) Denial). moved p.0) e)
      ∙ begin_connection-moved to_string s.handler ip now
  Step-moved {s} {t} (refused ip now d e o) =
      sym (ap (λ (p : Handler × Result (Unit {0}) Denial). moved p.0) e)
      ∙ begin_connection-moved to_string s.handler ip now
  Step-moved {s} {t} (ended ip how e o pos) =
      ap (λ (h : Handler). moved h) e ∙ end_connection-moved s.handler ip how
  Step-moved {s} {t} (datagram net client now e o) =
      ap (λ (h : Handler). moved h) e ∙ handle_udp_packet-moved to_string net s.handler client now
  Step-moved {s} {t} (session_over client e o) = ap (λ (h : Handler). moved h) e

  Reach-moved : {s t : Server} → Reach to_string s t → moved t.handler ≡ moved s.handler
  Reach-moved here = refl
  Reach-moved (next r st) = Step-moved st ∙ Reach-moved r

  -- Whatever connections and datagrams come and go, the statistics of a handler say that it has moved
  -- no bytes.
  get_connection_stats-none :
      (allow : Option (List Bytes)) (max_conns cps : Option ℕ) {t : Server}
      → Reach to_string (record { handler = new allow max_conns cps; opens = [] }) t
      → (get_connection_stats t.handler).bytes_transferred ≡ 0
  unfolding get_connection_stats snapshot new
  get_connection_stats-none allow max_conns cps r = Reach-moved r
