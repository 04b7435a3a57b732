-- ===== src/Proxy/Server/Instances.antt =====
-- src/proxy/server.rs: how the section of a proxy becomes an instance.
use gsc_fq.Common.{◌≡◌, ◌⊎◌, inl, inr, refl, false, Option, none, some, Bytes, Option-cases}
use gsc_fq.Common.Net.{IpAddr}
use gsc_fq.Common.Results.{Result, ok, err, Result-cases}
use gsc_fq.Config.Sections.{
  ProxySection, InvalidConfigValue, get_local_port, get_local_ip, get_remote_host, get_remote_port,
}
use gsc_fq.Proxy.Server.{
  ProxyInstance, Refusal, invalid_value, invalid_ip_address, new_instance, parsed, parse_ip_address,
  create_socket_addr, local_bind_ip, parse_source, instance_for,
}
use gsc_fq.Proxy.Stealth.{new}

module _ (trim : Bytes → Bytes) (parse_ip : Bytes → Option IpAddr) where
  -- Where an instance listens and connects to and whom it lets in, for the section that it is made of.
  pub record IsInstance (default : IpAddr) (p : ProxySection) (i : ProxyInstance) : Type 0 where
    pub listens : get_local_port p ≡ ok i.bind_addr.port
    pub address : local_bind_ip trim parse_ip default (get_local_ip p) ≡ ok i.bind_addr.ip
    pub host : Bytes
    pub remote : get_remote_host p ≡ ok host
    pub connects : parse_ip host ≡ some i.remote_addr.ip
    pub port : get_remote_port p ≡ ok i.remote_addr.port
    pub source : parse_source trim parse_ip p.source_ip ≡ ok i.source_ip
    pub limits : i.connection_handler ≡ new p.allow_ips p.max_conns_per_ip p.cps_limit
    pub idle : i.running ≡ false

  -- An address that is no IP address: what the user wrote, or the spaces around it cut off.
  pub NotIp : Refusal → Type 0
  NotIp e = (text : Bytes) × (e ≡ invalid_ip_address text) × (parse_ip text ≡ none)

  -- How the section of one proxy becomes an instance, or why not.
  pub data Made (default : IpAddr) (p : ProxySection) : Result ProxyInstance Refusal → Type 0 where
    made : {i : ProxyInstance} → IsInstance default p i → Made default p (ok i)
    bad_local :
        {e : InvalidConfigValue} → get_local_port p ≡ err e → Made default p (err (invalid_value e))
    bad_host :
        {e : InvalidConfigValue}
        → get_remote_host p ≡ err e
        → Made default p (err (invalid_value e))
    bad_port :
        {e : InvalidConfigValue}
        → get_remote_port p ≡ err e
        → Made default p (err (invalid_value e))
    bad_address : {e : Refusal} → NotIp e → Made default p (err e)

  parsed-cases :
      (text : Bytes)
      → ((ip : IpAddr) × (parsed text (parse_ip text) ≡ ok ip) × (parse_ip text ≡ some ip))
        ⊎ ((e : Refusal) × (parsed text (parse_ip text) ≡ err e) × NotIp e)
  unfolding NotIp
  parsed-cases text = elim (Option-cases (parse_ip text)) [
    | inl nothing ↦ rw nothing (inr (invalid_ip_address text, refl, (text, refl, nothing)))
    | inr (ip, e) ↦ rw e (inl (ip, refl, refl))
  ]

  unfoldable pub Parses : {A : Type 0} → Result A Refusal → Type 0
  Parses {A} r = ((a : A) × (r ≡ ok a)) ⊎ ((e : Refusal) × (r ≡ err e) × NotIp e)

  pub local_bind_ip-Parses :
      (default : IpAddr) (text : Option Bytes) → Parses (local_bind_ip trim parse_ip default text)
  unfolding Parses local_bind_ip parse_ip_address
  local_bind_ip-Parses default none = inl (default, refl)
  local_bind_ip-Parses default (some text) = elim (parsed-cases (trim text)) [
    | inl (ip, e, f) ↦ inl (ip, e)
    | inr r ↦ inr r
  ]

  parse_source-Parses : (text : Option Bytes) → Parses (parse_source trim parse_ip text)
  unfolding Parses parse_source parse_ip_address
  parse_source-Parses none = inl (none, refl)
  parse_source-Parses (some text) = elim (parsed-cases (trim text)) [
    | inl (ip, e, f) ↦ rw e (inl (some ip, refl))
    | inr (x, e, f) ↦ rw e (inr (x, refl, f))
  ]

  pub instance_for-Made :
      (default : IpAddr) (p : ProxySection) → Made default p (instance_for trim parse_ip default p)
  unfolding instance_for create_socket_addr Parses new_instance
  instance_for-Made default p = elim (Result-cases (get_local_port p)) [
    | inr (x, bad) ↦ rw (bad, instance_for) (bad_local bad)
    | inl (m, em) ↦ elim (local_bind_ip-Parses default (get_local_ip p)) [
      | inr (x, bad, why) ↦ rw (em, instance_for, bad) (bad_address why)
      | inl (ip, ei) ↦ elim (Result-cases (get_remote_host p)) [
        | inr (x, bad) ↦ rw (em, instance_for, ei, bad) (bad_host bad)
        | inl (host, eh) ↦ elim (Result-cases (get_remote_port p)) [
          | inr (x, bad) ↦ rw (em, instance_for, ei, eh, bad) (bad_port bad)
          | inl (n, en) ↦ elim (parsed-cases host) [
            | inr (x, bad, why) ↦ rw (em, instance_for, ei, eh, en, bad) (bad_address why)
            | inl (rip, er, connects) ↦ elim (parse_source-Parses p.source_ip) [
              | inr (x, bad, why) ↦ rw (em, instance_for, ei, eh, en, er, bad) (bad_address why)
              | inl (source, es) ↦
                  rw (em, instance_for, ei, eh, en, er, es)
                    (made (record {
                      listens = em;
                      address = ei;
                      host = host;
                      remote = eh;
                      connects = connects;
                      port = en;
                      source = es;
                      limits = refl;
                      idle = refl;
                    }))
            ]
          ]
        ]
      ]
    ]
  ]
