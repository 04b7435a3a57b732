-- ===== src/Proxy/Stealth/Rate/Untouched.antt =====
-- src/proxy/stealth_connection_handler.rs: the operations that leave the recent times alone.
use gsc_fq.Common.{
  ℕ, ◌≡◌, refl, none, some, ◌-◌, true, false, Option-cases, arith, Bool-cases, inl, inr,
}
use gsc_fq.Common.Maps
use gsc_fq.Common.Maps.{get-insert}
use gsc_fq.Common.Net.{IpAddr, SocketAddr, ip_key, ip_eq_iff}
use gsc_fq.Proxy.Stealth.{
  is_some, Ended, not_optimized, completed, broken, Relay, end_connection, register_disconnection,
  forward_udp, Handler, IpSecurityStats, stats_of, with_stats,
}
use gsc_fq.Proxy.Stealth.Rate.Recent.{recent, recent-with_stats}

-- What an operation leaves alone: the limit and the recent times.
abbrev pub SameTimes : Handler → Handler → Type 0
SameTimes h h' = (h'.cps_limit ≡ h.cps_limit) × ((j : IpAddr) → recent h' j ≡ recent h j)

lowered-SameTimes :
    (h : Handler) (ip : IpAddr) (n : ℕ)
    → SameTimes h (with_stats h ip (record (stats_of h ip) { active_connections = n }))
lowered-SameTimes h ip n = (
  refl,
  λ j. ground (
    arith,
    ip_eq_iff ip j,
    recent-with_stats h ip j (record (stats_of h ip) { active_connections = n }),
  ),
)

stats_present :
    (h : Handler) (ip : IpAddr) (s : IpSecurityStats)
    → Maps.get ip h.ip_stats ≡ some s
    → stats_of h ip ≡ s
unfolding stats_of
stats_present h ip s e = ground arith

register_absent :
    (h : Handler) (ip : IpAddr) → Maps.get ip h.ip_stats ≡ none → register_disconnection h ip ≡ h
unfolding register_disconnection
register_absent h ip e = ground arith

register_unlimited :
    (h : Handler) (ip : IpAddr)
    → is_some h.max_conns_per_ip ≡ false
    → register_disconnection h ip ≡ h
unfolding register_disconnection
register_unlimited h ip e = ground arith

register_present :
    (h : Handler) (ip : IpAddr) (s : IpSecurityStats)
    → is_some h.max_conns_per_ip ≡ true
    → Maps.get ip h.ip_stats ≡ some s
    → register_disconnection h ip
      ≡ with_stats h ip (record s { active_connections = s.active_connections - 1 })
unfolding register_disconnection
register_present h ip s limited e = ground arith

register_disconnection-SameTimes :
    (h : Handler) (ip : IpAddr) → SameTimes h (register_disconnection h ip)
register_disconnection-SameTimes h ip = elim (Option-cases (Maps.get ip h.ip_stats)) [
  | inl absent ↦ rw (register_absent h ip absent) (refl, λ j. refl)
  | inr (s, present) ↦ elim (Bool-cases (is_some h.max_conns_per_ip)) [
    | inr unlimited ↦ rw (register_unlimited h ip unlimited) (refl, λ j. refl)
    | inl limited ↦
        rw (register_present h ip s limited present, ← stats_present h ip s present)
          (lowered-SameTimes h ip ((stats_of h ip).active_connections - 1))
  ]
]

pub end_connection-SameTimes :
    (h : Handler) (ip : IpAddr) (how : Ended) → SameTimes h (end_connection h (some ip) how)
unfolding end_connection stats_of
end_connection-SameTimes h ip not_optimized = (refl, λ j. refl)
end_connection-SameTimes h ip broken = register_disconnection-SameTimes h ip
end_connection-SameTimes h ip completed = register_disconnection-SameTimes _ ip

pub forward_udp-SameTimes :
    (net : Relay) (h : Handler) (client : SocketAddr) → SameTimes h (forward_udp net h client).0
unfolding forward_udp stats_of
forward_udp-SameTimes net h client = (ground arith, λ j. ground arith)
