-- ===== src/Proxy/Stealth/Rate/Bound.antt =====
-- src/proxy/stealth_connection_handler.rs: what one check keeps of the limit of connections
-- per second.
use gsc_fq.Common.{
  count_if-append, count_if-le-length, ℕ, ◌+◌, ◌≤◌, ◌<◌, ◌≡◌, ◌⊎◌, refl, ◌&&◌, some, List, [], ◌∷◌,
  ◌++◌, arith, if◌then◌else◌, Bytes, length, keep, length-append, count_if, length-keep-le,
  Bool-cases, inl, inr,
}
use gsc_fq.Common.Net.{IpAddr, ip_key, ip_eq_iff}
use gsc_fq.Common.Results.{Result, ok, err}
use gsc_fq.Proxy.Stealth.{
  Handler, IpSecurityStats, Denial, fresh, stats_of, check_security, admit_entry, with_stats, acl,
}
use gsc_fq.Proxy.Stealth.Rate.Recent.{
  recent, recent-with_stats, count_if-keep-fresh, Times, admit-Times, check_security-eq,
}
use gsc_fq.Proxy.Stealth.Rate.Events.{Log, noted, admitted_from}

-- Admissions of `ip` less than a second before `now`.
unfoldable pub admitted_within : IpAddr → ℕ → Log → ℕ
admitted_within ip now [] = 0
admitted_within ip now ((j, t) ∷ log) =
    (if ip_key.beq j ip && fresh now t then 1 else 0) + admitted_within ip now log

-- In a second that has not passed, all admissions are recent ones.
admitted_from-le_within :
    (ip : IpAddr) (from now : ℕ) (log : Log)
    → now < from + 1_000_000_000
    → admitted_from ip from log ≤ admitted_within ip now log
unfolding admitted_from admitted_within
admitted_from-le_within ip from now [] h = omega arith
admitted_from-le_within ip from now ((j, t) ∷ log) h =
    ground (arith, admitted_from-le_within ip from now log h)

-- The recent times of every address count at least the admissions of the last second, at `now` and
-- at any later time, and stay within the limit.
pub record Inv (limit now : ℕ) (h : Handler) (log : Log) : Type 0 where
  pub limited : h.cps_limit ≡ some limit
  pub covered :
      (ip : IpAddr) (t : ℕ) → now ≤ t → admitted_within ip t log ≤ count_if (fresh t) (recent h ip)
  pub bounded : (ip : IpAddr) → length (recent h ip) ≤ limit
  pub seconds : (ip : IpAddr) (from : ℕ) → admitted_from ip from log ≤ limit

-- The entry after a refusal counts the same, and is no longer.
abbrev Same : ℕ → List ℕ → List ℕ → Type 0
Same now old new_times = (new_times ≡ old) ⊎ (new_times ≡ keep (fresh now) old)

Same-count :
    (now t : ℕ) (old new_times : List ℕ)
    → now ≤ t
    → Same now old new_times
    → (count_if (fresh t) new_times ≡ count_if (fresh t) old) × (length new_times ≤ length old)
Same-count now t old new_times le (inl e) = rw e (refl, omega arith)
Same-count now t old new_times le (inr e) =
    rw e (count_if-keep-fresh now t old le, length-keep-le (fresh now) old)

refused-Inv :
    (limit now now' : ℕ) (h : Handler) (log : Log) (ip : IpAddr) (s : IpSecurityStats)
    → Inv limit now h log
    → now ≤ now'
    → Same now' (recent h ip) s.recent_connections
    → Inv limit now' (with_stats h ip s) log
refused-Inv limit now now' h log ip s v le same = record {
  limited = v.limited;
  covered = λ j t later. ground (
    arith,
    recent-with_stats h ip j s,
    ip_eq_iff ip j,
    v.covered j t,
    Same-count now' t (recent h ip) s.recent_connections later same,
  );
  bounded = λ j. ground (
    arith,
    recent-with_stats h ip j s,
    ip_eq_iff ip j,
    v.bounded j,
    Same-count now' now' (recent h ip) s.recent_connections (omega arith) same,
  );
  seconds = v.seconds;
}

count_if-admitted :
    (now t : ℕ) (old : List ℕ)
    → now ≤ t
    → count_if (fresh t) (keep (fresh now) old ++ now ∷ [])
      ≡ (if fresh t now then 1 else 0) + count_if (fresh t) old
count_if-admitted now t old le = omega (
  arith,
  count_if-append (fresh t) (keep (fresh now) old) (now ∷ []),
  count_if-keep-fresh now t old le,
)

admitted-Inv :
    (limit now now' : ℕ) (h : Handler) (log : Log) (ip : IpAddr) (s : IpSecurityStats)
    → Inv limit now h log
    → now ≤ now'
    → s.recent_connections ≡ keep (fresh now') (recent h ip) ++ now' ∷ []
    → length (keep (fresh now') (recent h ip)) < limit
    → Inv limit now' (with_stats h ip s) ((ip, now') ∷ log)
unfolding admitted_within admitted_from
admitted-Inv limit now now' h log ip s v le e room = record {
  limited = v.limited;
  covered = λ j t later. ground (
    arith,
    recent-with_stats h ip j s,
    ip_eq_iff ip j,
    v.covered j t,
    count_if-admitted now' t (recent h ip) later,
  );
  bounded = λ j. ground (
    arith,
    recent-with_stats h ip j s,
    ip_eq_iff ip j,
    v.bounded j,
    length-append (keep (fresh now') (recent h ip)) (now' ∷ []),
  );
  seconds = λ j from. ground (
    arith,
    ip_eq_iff ip j,
    v.seconds j from,
    v.covered j now',
    admitted_from-le_within j from now' log,
    count_if-keep-fresh now' now' (recent h ip),
    count_if-le-length (fresh now') (keep (fresh now') (recent h ip)),
  );
}

abbrev pub InvAfter : ℕ → ℕ → Handler × Log → Type 0
InvAfter limit now (h, log) = Inv limit now h log

noted-Inv :
    (limit now now' : ℕ) (h : Handler) (log : Log) (ip : IpAddr)
    (p : IpSecurityStats × Result (Unit {0}) Denial)
    → Inv limit now h log
    → now ≤ now'
    → Times limit now' (stats_of h ip) p
    → InvAfter limit now' (noted ip now' log (with_stats h ip p.0, p.1))
unfolding noted
noted-Inv limit now now' h log ip (s, ok u) v le (inl (_, e, room)) =
    admitted-Inv limit now now' h log ip s v le e room
noted-Inv limit now now' h log ip (s, ok u) v le (inr (d, e, same)) = absurd (cc)
noted-Inv limit now now' h log ip (s, err d) v le (inl (e, _, _)) = absurd (cc)
noted-Inv limit now now' h log ip (s, err d) v le (inr (_, _, same)) =
    refused-Inv limit now now' h log ip s v le same

later-Inv :
    {limit now now' : ℕ} {h : Handler} {log : Log}
    → Inv limit now h log
    → now ≤ now'
    → Inv limit now' h log
later-Inv v le = record {
  limited = v.limited;
  covered = λ j t later. v.covered j t (omega arith);
  bounded = v.bounded;
  seconds = v.seconds;
}

admit_entry-Inv :
    (limit now now' : ℕ) (h : Handler) (log : Log) (ip : IpAddr)
    → Inv limit now h log
    → now ≤ now'
    → InvAfter limit now' (noted ip now' log (admit_entry h ip now'))
unfolding admit_entry
admit_entry-Inv limit now now' h log ip v le =
    noted-Inv limit now now' h log ip _ v le
      (admit-Times h.max_conns_per_ip h.cps_limit limit now' (stats_of h ip) v.limited)

pub check_security-Inv :
    (to_string : IpAddr → Bytes) (limit now now' : ℕ) (h : Handler) (log : Log) (ip : IpAddr)
    → Inv limit now h log
    → now ≤ now'
    → InvAfter limit now' (noted ip now' log (check_security to_string h ip now'))
check_security-Inv to_string limit now now' h log ip v le =
    rw (check_security-eq to_string h ip now' limit v.limited)
      (elim (Bool-cases (acl h.allow_ips (to_string ip))) [
        | inl listed ↦ rw listed (admit_entry-Inv limit now now' h log ip v le)
        | inr unlisted ↦ rw unlisted (unfold noted in (later-Inv v le))
      ])
