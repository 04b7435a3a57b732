-- ===== src/Proxy/Stealth/Rate.antt =====
-- src/proxy/stealth_connection_handler.rs: the limit of connections per second of one address.
mod Recent
pub mod Events
mod Bound
mod Untouched
use gsc_fq.Common.{
  count_if-append, count_if-le-length, ℕ, ◌+◌, ◌≤◌, ◌<◌, ◌≡◌, ◌⊎◌, refl, ◌∙◌, Bool, ◌&&◌, ltb,
  Option, none, some, List, [], ◌∷◌, ◌++◌, ◌-◌, true, false, Option-cases, arith, if◌then◌else◌,
  Bytes, leb, length, keep, length-append, count_if, length-keep-le, Bool-cases, inl, inr,
}
use gsc_fq.Common.Maps
use gsc_fq.Common.Maps.{get-insert}
use gsc_fq.Common.Net.{IpAddr, SocketAddr, ip_key, ip_eq_iff}
use gsc_fq.Common.Results.{Result, ok, err}
use gsc_fq.Proxy.Stealth.{
  is_some, Ended, not_optimized, completed, broken, Relay, opened, counted_in, begin_connection,
  end_connection, register_disconnection, forward_udp, forward_if_ok, handle_udp_packet,
  relay_ended, Handler, IpSecurityStats, Denial, rate_limit, max_connections, fresh, new, stats_of,
  admit, count_connection, check_security, admit_entry, with_stats, acl, not_in_allow_list,
}
use gsc_fq.Proxy.Stealth.Checks.{stats_of-with_stats}
use gsc_fq.Proxy.Stealth.Rate.Recent.{
  recent, recent-with_stats, count_if-keep-fresh, Times, count_connection-Times, admit-Times,
  check_security-eq,
}
use gsc_fq.Proxy.Stealth.Rate.Events.{
  Log, noted, Event, arrives, ends, datagram, session_over, run_event, run_events, InOrder,
  admitted_from,
}
use gsc_fq.Proxy.Stealth.Rate.Bound.{admitted_within, Inv, InvAfter, check_security-Inv}
use gsc_fq.Proxy.Stealth.Rate.Untouched.{SameTimes, end_connection-SameTimes, forward_udp-SameTimes}

SameTimes-Inv :
    {limit now : ℕ} {h : Handler} {log : Log} (h' : Handler)
    → Inv limit now h log
    → SameTimes h h'
    → Inv limit now h' log
SameTimes-Inv h' v (same, times) = record {
  limited = same ∙ v.limited;
  covered = λ j t later. rw (times j) (v.covered j t later);
  bounded = λ j. rw (times j) (v.bounded j);
  seconds = v.seconds;
}

-- An admission that is not noted.
unnoted-Inv :
    {limit now : ℕ} {h : Handler} {log : Log} (ip : IpAddr) (t : ℕ)
    → Inv limit now h ((ip, t) ∷ log)
    → Inv limit now h log
unfolding admitted_within admitted_from
unnoted-Inv {log = log} ip t v = record {
  limited = v.limited;
  covered = λ j u later. ground (arith, v.covered j u later);
  bounded = v.bounded;
  seconds = λ j from. ground (arith, v.seconds j from);
}

counted_in-Inv :
    (limit now : ℕ) (log : Log) (ip : IpAddr) (p : Handler × Result (Unit {0}) Denial)
    → InvAfter limit now (noted ip now log p)
    → InvAfter limit now (noted ip now log (counted_in p))
unfolding noted counted_in opened stats_of
counted_in-Inv limit now log ip (h, ok _) v = SameTimes-Inv _ v (refl, λ j. refl)
counted_in-Inv limit now log ip (h, err e) v = v

sent_on-Inv :
    (limit now : ℕ) (h : Handler) (log : Log) (ip : IpAddr) (p : Handler × Result (Unit {0}) Denial)
    → Inv limit now h ((ip, now) ∷ log)
    → SameTimes h p.0
    → InvAfter limit now (noted ip now log p)
unfolding noted
sent_on-Inv limit now h log ip (h', ok _) v same = SameTimes-Inv h' v same
sent_on-Inv limit now h log ip (h', err e) v same = unnoted-Inv ip now (SameTimes-Inv h' v same)

forward_if_ok-Inv :
    (limit now : ℕ) (log : Log) (net : Relay) (client : SocketAddr)
    (p : Handler × Result (Unit {0}) Denial)
    → InvAfter limit now (noted client.ip now log p)
    → InvAfter limit now (noted client.ip now log (forward_if_ok net client p))
unfolding noted forward_if_ok
forward_if_ok-Inv limit now log net client (h, ok _) v =
    sent_on-Inv limit now h log client.ip (forward_udp net h client) v
      (forward_udp-SameTimes net h client)
forward_if_ok-Inv limit now log net client (h, err e) v = v

module _ (to_string : IpAddr → Bytes) (limit : ℕ) where
  abbrev Limited : ℕ → Handler × Log → Type 0
  Limited now s = InvAfter limit now s

  run_events-Inv :
      (now : ℕ) (h : Handler) (log : Log) (es : List Event)
      → Inv limit now h log
      → InOrder now es
      → (last : ℕ) × Limited last (run_events to_string (h, log) es)
  unfolding run_events begin_connection handle_udp_packet relay_ended stats_of
  run_events-Inv now h log [] v o = (now, v)
  run_events-Inv now h log (arrives ip now' ∷ es) v (le, o) =
      run_events-Inv now' _ _ es
        (counted_in-Inv limit now' log ip (check_security to_string h ip now')
          (check_security-Inv to_string limit now now' h log ip v le))
        o
  run_events-Inv now h log (ends ip how ∷ es) v o =
      run_events-Inv now (end_connection h (some ip) how) log es
        (SameTimes-Inv _ v (end_connection-SameTimes h ip how)) o
  run_events-Inv now h log (datagram net client now' ∷ es) v (le, o) =
      run_events-Inv now' _ _ es
        (forward_if_ok-Inv limit now' log net client (check_security to_string h client.ip now')
          (check_security-Inv to_string limit now now' h log client.ip v le))
        o
  run_events-Inv now h log (session_over client ∷ es) v o =
      run_events-Inv now (relay_ended h client) log es (SameTimes-Inv _ v (refl, λ j. refl)) o

  new-Inv :
      (allow : Option (List Bytes)) (max_conns : Option ℕ)
      → Inv limit 0 (new allow max_conns (some limit)) []
  unfolding new stats_of Maps.get admitted_within admitted_from
  new-Inv allow max_conns = record {
    limited = refl;
    covered = λ j t later. omega arith;
    bounded = λ j. omega arith;
    seconds = λ j from. omega arith;
  }

  -- Whatever connections and datagrams come, in any interleaving with the ends of connections and of
  -- datagram sessions and whatever else limits them, no address has more than `cps_limit`
  -- connections let in and datagrams sent on within one second, whenever it begins, if the clock
  -- does not run backwards.
  pub admitted_from-le_limit :
      (allow : Option (List Bytes)) (max_conns : Option ℕ) (es : List Event)
      → InOrder 0 es
      → (ip : IpAddr) (from : ℕ)
      → admitted_from ip from (run_events to_string (new allow max_conns (some limit), []) es).1
        ≤ limit
  admitted_from-le_limit allow max_conns es o ip from =
      let (last, v) =
        run_events-Inv 0 (new allow max_conns (some limit)) [] es (new-Inv allow max_conns) o in
      v.seconds ip from
