-- ===== src/Proxy/Stealth/Checks.antt =====
-- src/proxy/stealth_connection_handler.rs: what each operation does to the counters of addresses.
use gsc_fq.Common.{
  ℕ, suc, ◌-◌, ◌<◌, ◌≡◌, ◌⊎◌, refl, Option, none, some, arith, if◌then◌else◌, Bytes, leb,
  Bool-cases, Option-cases, inl, inr, length, keep,
}
use gsc_fq.Common.Maps
use gsc_fq.Common.Maps.{get-insert}
use gsc_fq.Common.Net.{IpAddr, SocketAddr, ip_key, ip_eq_iff}
use gsc_fq.Common.Results.{Result, ok, err}
use gsc_fq.Proxy.Stealth.{
  Handler, opened, forward_udp, IpSecurityStats, Ended, not_optimized, completed, broken, Relay,
  Denial, rate_limit, max_connections, not_in_allow_list, acl, fresh, admit_entry, stats_of, admit,
  count_connection, check_security, register_disconnection, begin_connection, counted_in,
  end_connection, handle_udp_packet, forward_if_ok, with_stats,
}

abbrev pub active : Handler → IpAddr → ℕ
active h ip = (stats_of h ip).active_connections

pub stats_of-with_stats :
    (h : Handler) (ip j : IpAddr) (s : IpSecurityStats)
    → stats_of (with_stats h ip s) j ≡ (if ip_key.beq ip j then s else stats_of h j)
unfolding stats_of
stats_of-with_stats h ip j s = ground (arith, get-insert ip j s h.ip_stats)

-- A check lets a connection in below the limit and counts it, or refuses it and counts nothing.
abbrev pub Admits : ℕ → IpSecurityStats → IpSecurityStats × Result (Unit {0}) Denial → Type 0
Admits m s (s', r) =
    ((r ≡ ok tt) × (s.active_connections < m) × (s'.active_connections ≡ suc s.active_connections))
    ⊎ ((e : Denial) × (r ≡ err e) × (s'.active_connections ≡ s.active_connections))

count_connection_cases :
    (m : ℕ) (cps : Option ℕ) (now : ℕ) (s : IpSecurityStats)
    → s.active_connections < m
    → Admits m s (count_connection cps now s)
unfolding count_connection
count_connection_cases m none now s room = inl (refl, room, refl)
count_connection_cases m (some limit) now s room =
    elim (Bool-cases (leb limit (length (keep (fresh now) s.recent_connections)))) [
      | inl full ↦ rw full (inr (rate_limit, refl, refl))
      | inr free ↦ rw free (inl (refl, room, refl))
    ]

admit_cases :
    (m : ℕ) (limit cps : Option ℕ) (now : ℕ) (s : IpSecurityStats)
    → limit ≡ some m
    → Admits m s (admit limit cps now s)
unfolding admit
admit_cases m limit cps now s e = rw e (elim (Bool-cases (leb m s.active_connections)) [
  | inl full ↦ rw full (inr (max_connections, refl, refl))
  | inr room ↦ rw room (count_connection_cases m cps now s (ground arith))
])

abbrev pub bumped : Handler → IpAddr → IpAddr → ℕ
bumped h ip j = if ip_key.beq ip j then suc (active h j) else active h j

-- The same of the whole handler, with every address's counter.
abbrev pub Checks : ℕ → Handler → IpAddr → Handler × Result (Unit {0}) Denial → Type 0
Checks m h ip (h', r) =
    (h'.max_conns_per_ip ≡ some m)
    × (((r ≡ ok tt) × (active h ip < m) × ((j : IpAddr) → active h' j ≡ bumped h ip j))
        ⊎ ((e : Denial) × (r ≡ err e) × ((j : IpAddr) → active h' j ≡ active h j)))

with_stats-Checks :
    (m : ℕ) (h : Handler) (ip : IpAddr) (p : IpSecurityStats × Result (Unit {0}) Denial)
    → h.max_conns_per_ip ≡ some m
    → Admits m (stats_of h ip) p
    → Checks m h ip (with_stats h ip p.0, p.1)
with_stats-Checks m h ip (s, r) limited (inl (e, room, up)) =
    (limited, inl (e, room, λ j. ground (arith, stats_of-with_stats h ip j s, ip_eq_iff ip j)))
with_stats-Checks m h ip (s, r) limited (inr (d, e, same)) =
    (limited, inr (d, e, λ j. ground (arith, stats_of-with_stats h ip j s, ip_eq_iff ip j)))

pub admit_entry-Checks :
    (m : ℕ) (h : Handler) (ip : IpAddr) (now : ℕ)
    → h.max_conns_per_ip ≡ some m
    → Checks m h ip (admit_entry h ip now)
unfolding admit_entry
admit_entry-Checks m h ip now limited =
    with_stats-Checks m h ip _ limited
      (admit_cases m h.max_conns_per_ip h.cps_limit now (stats_of h ip) limited)

pub check_security-eq :
    (to_string : IpAddr → Bytes) (m : ℕ) (h : Handler) (ip : IpAddr) (now : ℕ)
    → h.max_conns_per_ip ≡ some m
    → check_security to_string h ip now ≡ (
        if acl h.allow_ips (to_string ip) then admit_entry h ip now else (h, err not_in_allow_list))
unfolding check_security
check_security-eq to_string m h ip now limited = ground arith

pub check_security-Checks :
    (to_string : IpAddr → Bytes) (m : ℕ) (h : Handler) (ip : IpAddr) (now : ℕ)
    → h.max_conns_per_ip ≡ some m
    → Checks m h ip (check_security to_string h ip now)
check_security-Checks to_string m h ip now limited =
    rw (check_security-eq to_string m h ip now limited)
      (elim (Bool-cases (acl h.allow_ips (to_string ip))) [
        | inl listed ↦ rw listed (admit_entry-Checks m h ip now limited)
        | inr unlisted ↦ rw unlisted (limited, inr (not_in_allow_list, refl, λ j. refl))
      ])

-- Every operation after the check leaves the counters alone, but for the end of a connection.
pub begin_connection-Checks :
    (to_string : IpAddr → Bytes) (m : ℕ) (h : Handler) (ip : IpAddr) (now : ℕ)
    → h.max_conns_per_ip ≡ some m
    → Checks m h ip (begin_connection to_string h (some ip) now)
unfolding begin_connection opened stats_of
begin_connection-Checks to_string m h ip now limited =
    counted_in-Checks (check_security to_string h ip now)
      (check_security-Checks to_string m h ip now limited)
  where
    counted_in-Checks :
        (p : Handler × Result (Unit {0}) Denial) → Checks m h ip p → Checks m h ip (counted_in p)
    counted_in-Checks (h', ok u) (l, inl (e, room, up)) = (l, inl (refl, room, up))
    counted_in-Checks (h', ok u) (l, inr (d, e, same)) = absurd (cc)
    counted_in-Checks (h', err e) c = c

abbrev pub SameLimits : Handler → Handler → Type 0
SameLimits h h' = (h'.max_conns_per_ip ≡ h.max_conns_per_ip) × (h'.ip_stats ≡ h.ip_stats)

pub forward_udp-SameLimits :
    (net : Relay) (h : Handler) (client : SocketAddr) → SameLimits h (forward_udp net h client).0
unfolding forward_udp
forward_udp-SameLimits net h client = ground arith

pub handle_udp_packet-SameLimits :
    (to_string : IpAddr → Bytes) (net : Relay) (h : Handler) (client : SocketAddr) (now : ℕ)
    → SameLimits
        (check_security to_string h client.ip now).0
        (handle_udp_packet to_string net h client now).0
unfolding handle_udp_packet
handle_udp_packet-SameLimits to_string net h client now =
    forwarded (check_security to_string h client.ip now)
  where
    forwarded :
        (p : Handler × Result (Unit {0}) Denial) → SameLimits p.0 (forward_if_ok net client p).0
    forwarded (h', ok _) = forward_udp-SameLimits net h' client
    forwarded (h', err e) = (refl, refl)

pub active-SameLimits :
    (h h' : Handler) (ip : IpAddr) → SameLimits h h' → active h' ip ≡ active h ip
unfolding stats_of
active-SameLimits h h' ip (l, e) = rw e refl

active_absent : (h : Handler) (ip : IpAddr) → Maps.get ip h.ip_stats ≡ none → active h ip ≡ 0
unfolding stats_of
active_absent h ip e = ground arith

active_present :
    (h : Handler) (ip : IpAddr) (s : IpSecurityStats)
    → Maps.get ip h.ip_stats ≡ some s
    → active h ip ≡ s.active_connections
unfolding stats_of
active_present h ip s e = ground arith

-- A disconnection lowers the counter of its address, if it is above 0, and no other.
abbrev pub Lowers : Handler → IpAddr → Handler → Type 0
Lowers h ip h' =
    (h'.max_conns_per_ip ≡ h.max_conns_per_ip)
    × ((j : IpAddr) → active h' j ≡ (if ip_key.beq ip j then active h j - 1 else active h j))

register_disconnection_absent :
    (h : Handler) (ip : IpAddr) → Maps.get ip h.ip_stats ≡ none → register_disconnection h ip ≡ h
unfolding register_disconnection
register_disconnection_absent h ip e = ground arith

register_disconnection_present :
    (h : Handler) (m : ℕ) (ip : IpAddr) (s : IpSecurityStats)
    → h.max_conns_per_ip ≡ some m
    → Maps.get ip h.ip_stats ≡ some s
    → register_disconnection h ip
      ≡ with_stats h ip (record s { active_connections = s.active_connections - 1 })
unfolding register_disconnection
register_disconnection_present h m ip s limited e = ground arith

register_disconnection-Lowers :
    (h : Handler) (m : ℕ) (ip : IpAddr)
    → h.max_conns_per_ip ≡ some m
    → Lowers h ip (register_disconnection h ip)
register_disconnection-Lowers h m ip limited = elim (Option-cases (Maps.get ip h.ip_stats)) [
  | inl e ↦
      rw (register_disconnection_absent h ip e)
        (refl, λ j. ground (arith, ip_eq_iff ip j, active_absent h ip e))
  | inr (s, e) ↦ rw (register_disconnection_present h m ip s limited e) (
    refl,
    λ j. ground (
      arith,
      stats_of-with_stats h ip j (record s { active_connections = s.active_connections - 1 }),
      ip_eq_iff ip j,
      active_present h ip s e,
    ),
  )
]

pub end_connection-Lowers :
    (h : Handler) (m : ℕ) (ip : IpAddr) (how : Ended)
    → h.max_conns_per_ip ≡ some m
    → (end_connection h (some ip) how ≡ h) ⊎ Lowers h ip (end_connection h (some ip) how)
unfolding end_connection stats_of
end_connection-Lowers h m ip not_optimized limited = inl refl
end_connection-Lowers h m ip broken limited = inr (register_disconnection-Lowers h m ip limited)
end_connection-Lowers h m ip completed limited = inr (register_disconnection-Lowers _ m ip limited)
