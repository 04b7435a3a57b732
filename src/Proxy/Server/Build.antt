-- ===== src/Proxy/Server/Build.antt =====
-- src/proxy/server.rs: the server that is built of a configuration that validation accepts.
use gsc_fq.Common.{
  ℕ, ◌≡◌, ◌≢◌, refl, sym, ap, ◌∙◌, Option, some, List, [], ◌∷◌, ◌++◌, arith, Bytes, append_assoc,
  append-nil, All, Pairwise,
}
use mathlib.Core.Path.{subst}
use gsc_fq.Common.Net.{IpAddr}
use gsc_fq.Common.Results.{Result, ok, err}
use gsc_fq.Config.Sections.{
  ProxySection, InvalidConfigValue, get_remote_host, get_remote_port, port_behind,
}
use gsc_fq.Config.Validate.{ConfigFile, Warning, validate}
use gsc_fq.Config.Validate.Sound.{ValidProxy, Differ, validate-valid}
use gsc_fq.Proxy.Server.{
  ProxyInstance, ProxyServer, Refusal, new_server, instance_for, add_proxy, add_all, build,
}
use gsc_fq.Proxy.Stealth.{is_some}
use gsc_fq.Proxy.Server.Instances
use gsc_fq.Proxy.Server.Instances.{
  Made, bad_local, bad_host, bad_port, bad_address, made, instance_for-Made,
}

-- A remote with a port has a host.
no_host :
    (p : ProxySection) (n : ℕ) (x : InvalidConfigValue)
    → get_remote_port p ≡ ok n
    → get_remote_host p ≢ err x
unfolding get_remote_port get_remote_host port_behind
no_host p n x e h = ground arith

module _ (trim : Bytes → Bytes) (parse_ip : Bytes → Option IpAddr) where
  abbrev IsInstance : IpAddr → ProxySection → ProxyInstance → Type 0
  IsInstance = Instances.IsInstance trim parse_ip

  abbrev NotIp : Refusal → Type 0
  NotIp = Instances.NotIp trim parse_ip

  -- Each instance is that of the proxy at its place.
  abbrev pub Serves : IpAddr → List ProxySection → List ProxyInstance → Type 0
  Serves default [] [] = Unit
  Serves default [] (i ∷ is) = ⊥
  Serves default (p ∷ ps) [] = ⊥
  Serves default (p ∷ ps) (i ∷ is) = IsInstance default p i × Serves default ps is

  -- A proxy that validation accepts is refused only for an address.
  refused-NotIp :
      (default : IpAddr) (p : ProxySection) (e : Refusal)
      → ValidProxy trim (λ b. is_some (parse_ip b)) p
      → Made trim parse_ip default p (err e)
      → NotIp e
  refused-NotIp default p e v (bad_local x) = let l = v.local in absurd (cc)
  refused-NotIp default p e v (bad_host x) = absurd (no_host p _ _ v.remote x)
  refused-NotIp default p e v (bad_port x) = let r = v.remote in absurd (cc)
  refused-NotIp default p e v (bad_address why) = why

  -- A server with the instances of some proxies behind those it had, or an address at fault.
  data Added (s : ProxyServer) (ps : List ProxySection) : Result ProxyServer Refusal → Type 0 where
    all_added :
        (is : List ProxyInstance) {s' : ProxyServer}
        → s'.proxy_instances ≡ s.proxy_instances ++ is
        → Serves s.bind_ip ps is
        → Added s ps (ok s')
    refused : {e : Refusal} → NotIp e → Added s ps (err e)

  added_after :
      (s : ProxyServer) (p : ProxySection) (ps : List ProxySection) (i : ProxyInstance)
      (r : Result ProxyServer Refusal)
      → IsInstance s.bind_ip p i
      → Added (record s { proxy_instances = s.proxy_instances ++ (i ∷ []) }) ps r
      → Added s (p ∷ ps) r
  added_after s p ps i r first (all_added is e rest) =
      all_added (i ∷ is) (e ∙ append_assoc s.proxy_instances (i ∷ []) is) (first, rest)
  added_after s p ps i r first (refused why) = refused why

  add_one :
      (s : ProxyServer) (p : ProxySection) (ps : List ProxySection)
      (r : Result ProxyInstance Refusal)
      → ValidProxy trim (λ b. is_some (parse_ip b)) p
      → Made trim parse_ip s.bind_ip p r
      → ((i : ProxyInstance)
          → Added
              (record s { proxy_instances = s.proxy_instances ++ (i ∷ []) })
              ps
              (add_all trim parse_ip
                (record s { proxy_instances = s.proxy_instances ++ (i ∷ []) })
                ps))
      → instance_for trim parse_ip s.bind_ip p ≡ r
      → Added s (p ∷ ps) (add_all trim parse_ip s (p ∷ ps))
  unfolding add_all add_proxy
  add_one s p ps (ok i) v (made first) ih e =
      rw (e, add_proxy) (added_after s p ps i _ first (ih i))
  add_one s p ps (err x) v m ih e = rw (e, add_proxy) (refused (refused-NotIp s.bind_ip p x v m))

  add_all-Added :
      (s : ProxyServer) (ps : List ProxySection)
      → All (ValidProxy trim (λ b. is_some (parse_ip b))) ps
      → Added s ps (add_all trim parse_ip s ps)
  unfolding add_all
  add_all-Added s [] v = all_added [] (sym (append-nil s.proxy_instances)) tt
  add_all-Added s (p ∷ ps) (v, vs) =
      add_one s p ps (instance_for trim parse_ip s.bind_ip p) v
        (instance_for-Made trim parse_ip s.bind_ip p)
        (λ i. add_all-Added (record s { proxy_instances = s.proxy_instances ++ (i ∷ []) }) ps vs)
        refl

  -- Two instances that listen on different ports.
  pub Apart : ProxyInstance → ProxyInstance → Type 0
  Apart i j = i.bind_addr.port ≢ j.bind_addr.port

  Apart-Differ :
      (default : IpAddr) (p : ProxySection) (i : ProxyInstance) (ps : List ProxySection)
      (is : List ProxyInstance)
      → IsInstance default p i
      → All (Differ trim (λ b. is_some (parse_ip b)) p) ps
      → Serves default ps is
      → All (Apart i) is
  unfolding Apart Differ
  Apart-Differ default p i [] [] own ds s = tt
  Apart-Differ default p i [] (j ∷ is) own ds s = elim s [ ]
  Apart-Differ default p i (q ∷ ps) [] own ds s = elim s [ ]
  Apart-Differ default p i (q ∷ ps) (j ∷ is) own (d, ds) (other, s) =
      (d _ _ own.listens other.listens, Apart-Differ default p i ps is own ds s)

  Pairwise-Apart :
      (default : IpAddr) (ps : List ProxySection) (is : List ProxyInstance)
      → Pairwise (Differ trim (λ b. is_some (parse_ip b))) ps
      → Serves default ps is
      → Pairwise Apart is
  Pairwise-Apart default [] [] ds s = tt
  Pairwise-Apart default [] (j ∷ is) ds s = elim s [ ]
  Pairwise-Apart default (q ∷ ps) [] ds s = elim s [ ]
  Pairwise-Apart default (p ∷ ps) (i ∷ is) (d, ds) (own, s) =
      (Apart-Differ default p i ps is own d s, Pairwise-Apart default ps is ds s)

  -- What a build gives: an idle instance for each proxy, in order, listening on different ports, or
  -- the refusal of a text that is no IP address.
  pub data Built (default : IpAddr) (ps : List ProxySection)
      : Result ProxyServer Refusal → Type 0 where
    built :
        {s : ProxyServer}
        → Serves default ps s.proxy_instances
        → Pairwise Apart s.proxy_instances
        → Built default ps (ok s)
    not_built : {e : Refusal} → NotIp e → Built default ps (err e)

  Built-Added :
      (s : ProxyServer) (ps : List ProxySection) (r : Result ProxyServer Refusal)
      → s.proxy_instances ≡ []
      → Pairwise (Differ trim (λ b. is_some (parse_ip b))) ps
      → Added s ps r
      → Built s.bind_ip ps r
  Built-Added s ps (ok s') new ds (all_added is e serves) =
      let same : s'.proxy_instances ≡ is = e ∙ ap (λ t. t ++ is) new in
      built (subst (Serves s.bind_ip ps) (sym same) serves)
        (subst (Pairwise Apart) (sym same) (Pairwise-Apart s.bind_ip ps is ds serves))
  Built-Added s ps (err x) new ds (refused why) = not_built why

  -- A forward proxy server that is built of a configuration that validation accepts has an idle
  -- instance for each proxy, in order, which listens at the proxy's port and connects to its remote
  -- address, and no two listen on one port. A build fails only for a text that is no IP address.
  pub build-Built :
      (c c' : ConfigFile) (ws : List Warning) (ip : IpAddr)
      → validate trim (λ b. is_some (parse_ip b)) c ≡ ok (c', ws)
      → Built ip c'.proxies (build trim parse_ip (some ip) c'.proxies)
  unfolding build new_server
  build-Built c c' ws ip e =
      let (valid, apart) = validate-valid trim (λ b. is_some (parse_ip b)) c c' ws e in
      Built-Added (new_server ip) c'.proxies _ refl apart
        (add_all-Added (new_server ip) c'.proxies valid)
