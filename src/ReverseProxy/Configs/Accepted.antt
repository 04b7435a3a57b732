-- ===== src/ReverseProxy/Configs/Accepted.antt =====
-- src/reverse_proxy/client.rs: the proxies of a configuration that passed validation.
use gsc_fq.Common.{◌≡◌, refl, Bool, List, [], ◌∷◌, arith, Bytes, length, All}
use gsc_fq.Common.Results.{ok}
use gsc_fq.Config.Sections.{ReverseProxySection}
use gsc_fq.Config.Validate.{ConfigFile, Warning, validate}
use gsc_fq.Config.Validate.Sound.{IsPort}
use gsc_fq.Config.Validate.Reverse.{ValidReverse, validate-reverse}
use gsc_fq.ReverseProxy.Protocol.{ReverseProxyConfig}
use gsc_fq.ReverseProxy.Configs.{config_of, parse_proxy_configs}

abbrev pub HasPorts : ReverseProxyConfig → Type 0
HasPorts c = IsPort c.server_port × IsPort c.local_port

module _ (trim : Bytes → Bytes) (is_ip : Bytes → Bool) where
  parse-valid :
      (rs : List ReverseProxySection)
      → All (ValidReverse trim is_ip) rs
      → (cs : List ReverseProxyConfig) × (parse_proxy_configs rs ≡ ok cs)
        × (length cs ≡ length rs)
        × All HasPorts cs
  unfolding parse_proxy_configs
  parse-valid [] _ = ([], refl, refl, tt)
  parse-valid (r ∷ rs) (v, vs) =
      let (cs, parsed, same, ports) = parse-valid rs vs in
      (
        config_of r v.server_port v.local_port ∷ cs,
        rw (v.server, v.local, parsed) refl,
        omega (arith, same),
        ((v.server-IsPort, v.local-IsPort), ports),
      )

  -- The reverse proxies of a configuration that is accepted all parse, one proxy for each, with
  -- ports in range at both ends.
  pub parse_proxy_configs-accepted :
      (c c' : ConfigFile) (ws : List Warning)
      → validate trim is_ip c ≡ ok (c', ws)
      → (cs : List ReverseProxyConfig) × (parse_proxy_configs c.reverse_proxies ≡ ok cs)
        × (length cs ≡ length c.reverse_proxies)
        × All HasPorts cs
  parse_proxy_configs-accepted c c' ws e =
      let (valid, _, _) = validate-reverse trim is_ip c c' ws e in
      parse-valid c.reverse_proxies valid
