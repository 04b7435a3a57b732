-- ===== src/Proxy/Stealth/Limits.antt =====
-- src/proxy/stealth_connection_handler.rs: the limit of connections of one address.
use gsc_fq.Common.{
  ℕ, suc, ◌-◌, ◌≤◌, ◌<◌, ◌≡◌, ◌⊎◌, refl, Option, some, List, [], ◌∷◌, arith, if◌then◌else◌, Bytes,
  inl, inr,
}
use gsc_fq.Common.Maps
use gsc_fq.Common.Maps.{get-insert}
use gsc_fq.Common.Net.{IpAddr, SocketAddr, ip_key, ip_eq_iff}
use gsc_fq.Common.Results.{Result, ok, err}
use gsc_fq.Proxy.Stealth.{
  Handler, Ended, Relay, Denial, new, stats_of, check_security, begin_connection, end_connection,
  handle_udp_packet, relay_ended,
}
use gsc_fq.Proxy.Stealth.Checks.{
  active, Checks, SameLimits, Lowers, check_security-Checks, begin_connection-Checks,
  handle_udp_packet-SameLimits, active-SameLimits, end_connection-Lowers,
}

-- Connections that one address has open, in a list of the open ones.
pub open_from : IpAddr → List IpAddr → ℕ
open_from ip [] = 0
open_from ip (j ∷ js) = if ip_key.beq j ip then suc (open_from ip js) else open_from ip js

-- One connection fewer of this address.
pub close_one : IpAddr → List IpAddr → List IpAddr
close_one ip [] = []
close_one ip (j ∷ js) = if ip_key.beq j ip then js else j ∷ close_one ip js

-- A handler and the addresses of the connections that its tasks serve.
pub record Server : Type 0 where
  pub handler : Handler
  pub opens : List IpAddr

-- One step of some task: a connection is accepted or refused, one ends, a datagram comes, a
-- datagram session ends. Tasks interleave at these points.
pub data Step (to_string : IpAddr → Bytes) (s : Server) (t : Server) : Type 0 where
  accepted :
      (ip : IpAddr) (now : ℕ)
      → begin_connection to_string s.handler (some ip) now ≡ (t.handler, ok tt)
      → t.opens ≡ ip ∷ s.opens
      → Step to_string s t
  refused :
      (ip : IpAddr) (now : ℕ) (e : Denial)
      → begin_connection to_string s.handler (some ip) now ≡ (t.handler, err e)
      → t.opens ≡ s.opens
      → Step to_string s t
  ended :
      (ip : IpAddr) (how : Ended)
      → t.handler ≡ end_connection s.handler (some ip) how
      → t.opens ≡ close_one ip s.opens
      → 0 < open_from ip s.opens
      → Step to_string s t
  datagram :
      (net : Relay) (client : SocketAddr) (now : ℕ)
      → t.handler ≡ (handle_udp_packet to_string net s.handler client now).0
      → t.opens ≡ s.opens
      → Step to_string s t
  session_over :
      (client : SocketAddr)
      → t.handler ≡ relay_ended s.handler client
      → t.opens ≡ s.opens
      → Step to_string s t

pub data Reach (to_string : IpAddr → Bytes) (s : Server) : Server → Type 0 where
  here : Reach to_string s s
  next : {t u : Server} → Reach to_string s t → Step to_string t u → Reach to_string s u

open_from-close_one :
    (ip j : IpAddr) (js : List IpAddr)
    → 0 < open_from ip js
    → open_from j (close_one ip js)
      ≡ (if ip_key.beq ip j then open_from j js - 1 else open_from j js)
unfolding open_from close_one
open_from-close_one ip j [] h = elim h [ ]
open_from-close_one ip j (k ∷ js) h =
    ground (arith, ip_eq_iff ip j, ip_eq_iff k j, ip_eq_iff k ip, open_from-close_one ip j js)

-- The counter of every address covers its open connections, and respects the limit.
pub record Inv (limit : ℕ) (s : Server) : Type 0 where
  pub limited : s.handler.max_conns_per_ip ≡ some limit
  pub covered : (ip : IpAddr) → open_from ip s.opens ≤ active s.handler ip
  pub bounded : (ip : IpAddr) → active s.handler ip ≤ limit

-- A connection that was let in: below the limit, and counted.
accepted-Inv :
    (m : ℕ) (s t : Server) (ip : IpAddr)
    → Inv m s
    → Checks m s.handler ip (t.handler, ok tt)
    → t.opens ≡ ip ∷ s.opens
    → Inv m t
unfolding open_from
accepted-Inv m s t ip v (limited, inl (_, room, up)) o = record {
  limited = limited;
  covered = λ j. ground (arith, up j, v.covered j, ip_eq_iff ip j);
  bounded = λ j. ground (arith, up j, v.bounded j, ip_eq_iff ip j);
}
accepted-Inv m s t ip v (limited, inr (d, e, _)) o = absurd (cc)

refused-Inv :
    (m : ℕ) (s t : Server) (ip : IpAddr) (d : Denial)
    → Inv m s
    → Checks m s.handler ip (t.handler, err d)
    → t.opens ≡ s.opens
    → Inv m t
refused-Inv m s t ip d v (limited, inl (e, _, _)) o = absurd (cc)
refused-Inv m s t ip d v (limited, inr (_, _, same)) o = record {
  limited = limited;
  covered = λ j. ground (arith, same j, v.covered j);
  bounded = λ j. ground (arith, same j, v.bounded j);
}

ended-Inv :
    (m : ℕ) (s t : Server) (ip : IpAddr)
    → Inv m s
    → (t.handler ≡ s.handler) ⊎ Lowers s.handler ip t.handler
    → t.opens ≡ close_one ip s.opens
    → 0 < open_from ip s.opens
    → Inv m t
ended-Inv m s t ip v (inl e) o pos = record {
  limited = ground arith;
  covered = λ j. ground (arith, v.covered j, open_from-close_one ip j s.opens pos);
  bounded = λ j. ground (arith, v.bounded j);
}
ended-Inv m s t ip v (inr (l, lower)) o pos = record {
  limited = ground arith;
  covered = λ j. ground (arith, lower j, v.covered j, open_from-close_one ip j s.opens pos);
  bounded = λ j. ground (arith, lower j, v.bounded j);
}

-- A datagram is counted like a connection, and opens none.
datagram-Inv :
    (m : ℕ) (s t : Server) (ip : IpAddr) (p : Handler × Result (Unit {0}) Denial)
    → Inv m s
    → Checks m s.handler ip p
    → SameLimits p.0 t.handler
    → t.opens ≡ s.opens
    → Inv m t
datagram-Inv m s t ip (h', r) v (limited, inl (_, room, up)) same o = record {
  limited = ground arith;
  covered = λ j. ground (arith, up j, v.covered j, active-SameLimits h' t.handler j same);
  bounded =
      λ j. ground (arith, up j, v.bounded j, active-SameLimits h' t.handler j same, ip_eq_iff ip j);
}
datagram-Inv m s t ip (h', r) v (limited, inr (d, e, keeps)) same o = record {
  limited = ground arith;
  covered = λ j. ground (arith, keeps j, v.covered j, active-SameLimits h' t.handler j same);
  bounded = λ j. ground (arith, keeps j, v.bounded j, active-SameLimits h' t.handler j same);
}

module _ (to_string : IpAddr → Bytes) (m : ℕ) where
  Step-Inv : {s t : Server} → Step to_string s t → Inv m s → Inv m t
  unfolding relay_ended stats_of
  Step-Inv {s} {t} (accepted ip now e o) v =
      accepted-Inv m s t ip v
        (rw e at (begin_connection-Checks to_string m s.handler ip now v.limited)) o
  Step-Inv {s} {t} (refused ip now d e o) v =
      refused-Inv m s t ip d v
        (rw e at (begin_connection-Checks to_string m s.handler ip now v.limited)) o
  Step-Inv {s} {t} (ended ip how e o pos) v =
      ended-Inv m s t ip v (rw (← e) at (end_connection-Lowers s.handler m ip how v.limited)) o pos
  Step-Inv {s} {t} (datagram net client now e o) v =
      datagram-Inv m s t client.ip (check_security to_string s.handler client.ip now) v
        (check_security-Checks to_string m s.handler client.ip now v.limited)
        (rw e (handle_udp_packet-SameLimits to_string net s.handler client now)) o
  Step-Inv {s} {t} (session_over client e o) v = record {
    limited = ground (arith, v.limited);
    covered = λ j. ground (arith, v.covered j);
    bounded = λ j. ground (arith, v.bounded j);
  }

  Reach-Inv : {s t : Server} → Inv m s → Reach to_string s t → Inv m t
  Reach-Inv v here = v
  Reach-Inv v (next r st) = Step-Inv st (Reach-Inv v r)

abbrev pub start : Option (List Bytes) → ℕ → Option ℕ → Server
start allow m cps = record { handler = new allow (some m) cps; opens = [] }

start-Inv : (allow : Option (List Bytes)) (m : ℕ) (cps : Option ℕ) → Inv m (start allow m cps)
unfolding new stats_of Maps.get open_from
start-Inv allow m cps = record {
  limited = refl;
  covered = λ j. omega arith;
  bounded = λ j. omega arith;
}

-- Whatever connections and datagrams come and go, in any interleaving, an address never has more
-- connections open than `max_conns_per_ip` allows.
pub open_from-le_max :
    (to_string : IpAddr → Bytes) (allow : Option (List Bytes)) (m : ℕ) (cps : Option ℕ) {t : Server}
    → Reach to_string (start allow m cps) t
    → (ip : IpAddr) → open_from ip t.opens ≤ m
open_from-le_max to_string allow m cps r ip =
    let v = Reach-Inv to_string m (start-Inv allow m cps) r in
    omega (arith, v.covered ip, v.bounded ip)
