-- ===== src/Proxy/Stealth/ActiveCount.antt =====
-- src/proxy/stealth_connection_handler.rs: the counters of the whole handler.
use gsc_fq.Common.{ℕ, ◌≡◌, ◌<◌, ap, Option, none, some, arith, Bytes}
use gsc_fq.Common.Net.{IpAddr}
use gsc_fq.Common.Results.{Result, ok, err}
use gsc_fq.Proxy.Stealth.{
  Handler, Counters, Ended, not_optimized, completed, broken, begin_connection, counted_in, opened,
  end_connection, register_disconnection, check_security, Denial, increment, u64_mod,
}

-- What a connection that was let in adds to the number of active ones once it is over.
pub left_active : Ended → ℕ → ℕ
left_active completed n = n
left_active broken n = increment n
left_active not_optimized n = increment n

pub register_keeps_stats :
    (h : Handler) (ip : IpAddr) → (register_disconnection h ip).stats ≡ h.stats
unfolding register_disconnection
register_keeps_stats h ip = ground arith

pub check_keeps_stats :
    (to_string : IpAddr → Bytes) (h : Handler) (ip : IpAddr) (now : ℕ)
    → (check_security to_string h ip now).0.stats ≡ h.stats
unfolding check_security
check_keeps_stats to_string h ip now = ground arith

-- The connection is let in: its counters are those of the handler before, one up.
begun_active :
    (to_string : IpAddr → Bytes) (h h' : Handler) (peer : Option IpAddr) (now : ℕ)
    → begin_connection to_string h peer now ≡ (h', ok tt)
    → h'.stats.active ≡ increment h.stats.active
unfolding begin_connection opened
begun_active to_string h h' none now e = ground arith
begun_active to_string h h' (some ip) now e =
    counted (check_security to_string h ip now) (check_keeps_stats to_string h ip now) e
  where
    counted :
        (p : Handler × Result (Unit {0}) Denial)
        → p.0.stats ≡ h.stats
        → counted_in p ≡ (h', ok tt)
        → h'.stats.active ≡ increment h.stats.active
    counted (g, ok u) keep e = ground arith
    counted (g, err d) keep e = cc

-- A connection that was let in and completes leaves the number of active connections, a u64, as it
-- was. One that ends in an error, in the handler or in the socket options, leaves it one too high.
pub begin-end_active :
    (to_string : IpAddr → Bytes) (h h' : Handler) (peer : Option IpAddr) (now : ℕ) (how : Ended)
    → h.stats.active < u64_mod
    → begin_connection to_string h peer now ≡ (h', ok tt)
    → (end_connection h' peer how).stats.active ≡ left_active how h.stats.active
unfolding end_connection left_active
begin-end_active to_string h h' none now not_optimized lt e =
    ground (arith, begun_active to_string h h' none now e)
begin-end_active to_string h h' none now completed lt e =
    ground (arith, begun_active to_string h h' none now e)
begin-end_active to_string h h' none now broken lt e =
    ground (arith, begun_active to_string h h' none now e)
begin-end_active to_string h h' (some ip) now not_optimized lt e =
    ground (arith, begun_active to_string h h' (some ip) now e)
begin-end_active to_string h h' (some ip) now completed lt e = ground (
  arith,
  begun_active to_string h h' (some ip) now e,
  ap (λ (c : Counters). c.active)
      (register_keeps_stats
        (record h' { stats = record h'.stats { successful = increment h'.stats.successful } }) ip),
)
begin-end_active to_string h h' (some ip) now broken lt e = ground (
  arith,
  begun_active to_string h h' (some ip) now e,
  ap (λ (c : Counters). c.active) (register_keeps_stats h' ip),
)
