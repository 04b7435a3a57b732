-- ===== src/Proxy/Stealth/Rate/Recent.antt =====
-- src/proxy/stealth_connection_handler.rs: the times of recent connections that one check leaves.
use gsc_fq.Common.{
  ℕ, ◌≤◌, ◌<◌, ◌≡◌, ◌⊎◌, refl, Option, none, some, List, [], ◌∷◌, ◌++◌, arith, if◌then◌else◌, Bytes,
  leb, length, keep, count_if, Bool-cases, inl, inr,
}
use gsc_fq.Common.Net.{IpAddr, ip_key}
use gsc_fq.Common.Results.{Result, ok, err}
use gsc_fq.Proxy.Stealth.Checks.{stats_of-with_stats}
use gsc_fq.Proxy.Stealth.{
  with_stats, Handler, IpSecurityStats, Denial, rate_limit, max_connections, fresh, stats_of, admit,
  count_connection, check_security, admit_entry, acl, not_in_allow_list,
}

abbrev pub recent : Handler → IpAddr → List ℕ
recent h ip = (stats_of h ip).recent_connections

-- What is thrown away at `now` is not fresh at any later time.
pub count_if-keep-fresh :
    (now later : ℕ) (xs : List ℕ)
    → now ≤ later
    → count_if (fresh later) (keep (fresh now) xs) ≡ count_if (fresh later) xs
count_if-keep-fresh now later [] h = refl
count_if-keep-fresh now later (x ∷ xs) h = ground (arith, count_if-keep-fresh now later xs h)

-- Under the lock: the times that one check leaves.
abbrev pub Times : ℕ → ℕ → IpSecurityStats → IpSecurityStats × Result (Unit {0}) Denial → Type 0
Times limit now s (s', r) =
    ((r ≡ ok tt)
      × (s'.recent_connections ≡ keep (fresh now) s.recent_connections ++ now ∷ [])
      × (length (keep (fresh now) s.recent_connections) < limit))
    ⊎ ((e : Denial) × (r ≡ err e)
        × ((s'.recent_connections ≡ s.recent_connections)
            ⊎ (s'.recent_connections ≡ keep (fresh now) s.recent_connections)))

pub count_connection-Times :
    (limit now : ℕ) (s : IpSecurityStats) → Times limit now s (count_connection (some limit) now s)
unfolding count_connection
count_connection-Times limit now s =
    elim (Bool-cases (leb limit (length (keep (fresh now) s.recent_connections)))) [
      | inl full ↦ rw full (inr (rate_limit, refl, inr refl))
      | inr free ↦ rw free (inl (refl, refl, ground arith))
    ]

pub admit-Times :
    (max_conns cps : Option ℕ) (limit now : ℕ) (s : IpSecurityStats)
    → cps ≡ some limit
    → Times limit now s (admit max_conns cps now s)
unfolding admit
admit-Times none cps limit now s e = rw e (count_connection-Times limit now s)
admit-Times (some m) cps limit now s e = rw e (elim (Bool-cases (leb m s.active_connections)) [
  | inl full ↦ rw full (inr (max_connections, refl, inl refl))
  | inr room ↦ rw room (count_connection-Times limit now s)
])

pub check_security-eq :
    (to_string : IpAddr → Bytes) (h : Handler) (ip : IpAddr) (now limit : ℕ)
    → h.cps_limit ≡ some limit
    → check_security to_string h ip now ≡ (
        if acl h.allow_ips (to_string ip) then admit_entry h ip now else (h, err not_in_allow_list))
unfolding check_security
check_security-eq to_string h ip now limit limited = ground arith

pub recent-with_stats :
    (h : Handler) (ip j : IpAddr) (s : IpSecurityStats)
    → recent (with_stats h ip s) j ≡ (if ip_key.beq ip j then s.recent_connections else recent h j)
recent-with_stats h ip j s = ground (arith, stats_of-with_stats h ip j s)
