-- ===== src/Proxy/Server/Limited.antt =====
-- src/proxy/server.rs and src/proxy/stealth_connection_handler.rs: the limits of a configuration, kept
-- by the instances that are built of it.
use gsc_fq.Common.{ℕ, zero, suc, ◌≤◌, ◌≡◌, refl, sym, Option, some, List, [], ◌∷◌, Bytes, get_elem?}
use mathlib.Core.Path.{subst}
use gsc_fq.Common.Net.{IpAddr}
use gsc_fq.Common.Results.{Result, ok, err}
use gsc_fq.Config.Sections.{ProxySection}
use gsc_fq.Config.Validate.{ConfigFile, Warning, validate}
use gsc_fq.Proxy.Server.{ProxyInstance, ProxyServer, Refusal, build}
use gsc_fq.Proxy.Server.Instances.{IsInstance}
use gsc_fq.Proxy.Server.Build.{Serves, Built, built, not_built, build-Built}
use gsc_fq.Proxy.Stealth.{Handler, new, is_some}
use gsc_fq.Proxy.Stealth.Limits
use gsc_fq.Proxy.Stealth.Limits.{Reach, open_from, open_from-le_max}
use gsc_fq.Proxy.Stealth.Rate.Events.{Event, run_events, InOrder, admitted_from}
use gsc_fq.Proxy.Stealth.Rate.{admitted_from-le_limit}

-- The state of a handler that serves no one yet.
abbrev pub serving : Handler → Limits.Server
serving h = record { handler = h; opens = [] }

-- Whatever its tasks do, from its start on, a handler keeps the limits of a section.
pub record KeepsLimits (to_string : IpAddr → Bytes) (p : ProxySection) (h : Handler) : Type 0 where
  pub opens :
      (m : ℕ) {t : Limits.Server}
      → p.max_conns_per_ip ≡ some m
      → Reach to_string (serving h) t
      → (ip : IpAddr) → open_from ip t.opens ≤ m
  pub rate :
      (n : ℕ) (es : List Event)
      → p.cps_limit ≡ some n
      → InOrder 0 es
      → (ip : IpAddr) (from : ℕ) → admitted_from ip from (run_events to_string (h, []) es).1 ≤ n

new-KeepsLimits :
    (to_string : IpAddr → Bytes) (p : ProxySection)
    → KeepsLimits to_string p (new p.allow_ips p.max_conns_per_ip p.cps_limit)
new-KeepsLimits to_string p = record {
  opens = λ m {t} e r.
      open_from-le_max to_string p.allow_ips m p.cps_limit
        (subst (λ x. Reach to_string (serving (new p.allow_ips x p.cps_limit)) t) e r);
  rate = λ n es e o ip from.
      rw e (admitted_from-le_limit to_string n p.allow_ips p.max_conns_per_ip es o ip from);
}

module _ (trim : Bytes → Bytes) (parse_ip : Bytes → Option IpAddr) where
  Serves-elem :
      (default : IpAddr) (ps : List ProxySection) (is : List ProxyInstance) (k : ℕ)
      (p : ProxySection)
      → Serves trim parse_ip default ps is
      → get_elem? ps k ≡ some p
      → (i : ProxyInstance) × (get_elem? is k ≡ some i) × IsInstance trim parse_ip default p i
  Serves-elem default [] is k p serves e = absurd (cc)
  Serves-elem default (q ∷ ps) [] k p serves e = elim serves [ ]
  Serves-elem default (q ∷ ps) (i ∷ is) zero p (own, rest) e =
      (i, refl, subst (λ x. IsInstance trim parse_ip default x i) (cc) own)
  Serves-elem default (q ∷ ps) (i ∷ is) (suc k) p (own, rest) e =
      Serves-elem default ps is k p rest e

  Built-Serves :
      (default : IpAddr) (ps : List ProxySection) (r : Result ProxyServer Refusal) (s : ProxyServer)
      → Built trim parse_ip default ps r
      → r ≡ ok s
      → Serves trim parse_ip default ps s.proxy_instances
  Built-Serves default ps (ok s') s (built serves apart) e =
      let same : s' ≡ s = cc in
      subst (λ x. Serves trim parse_ip default ps x.proxy_instances) same serves
  Built-Serves default ps (err x) s (not_built why) e = absurd (cc)

  -- A forward proxy server that is built of a configuration that validation accepts keeps its limits,
  -- whatever connections and datagrams come and go: the instance of each proxy never has more
  -- connections of one address open than the proxy's `max_conns_per_ip`, and within no second lets in
  -- more of its connections and datagrams than `cps_limit`, if the clock does not run backwards.
  pub build-KeepsLimits :
      (to_string : IpAddr → Bytes) (c c' : ConfigFile) (ws : List Warning) (ip : IpAddr)
      (s : ProxyServer) (k : ℕ) (p : ProxySection)
      → validate trim (λ b. is_some (parse_ip b)) c ≡ ok (c', ws)
      → build trim parse_ip (some ip) c'.proxies ≡ ok s
      → get_elem? c'.proxies k ≡ some p
      → (i : ProxyInstance) × (get_elem? s.proxy_instances k ≡ some i)
        × KeepsLimits to_string p i.connection_handler
  build-KeepsLimits to_string c c' ws ip s k p valid made found =
      let (i, here, own) =
        Serves-elem ip c'.proxies s.proxy_instances k p
          (Built-Serves ip c'.proxies _ s (build-Built trim parse_ip c c' ws ip valid) made)
          found in
      (i, here, subst (KeepsLimits to_string p) (sym own.limits) (new-KeepsLimits to_string p))
