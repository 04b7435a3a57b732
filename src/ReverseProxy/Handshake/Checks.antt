-- ===== src/ReverseProxy/Handshake/Checks.antt =====
-- src/reverse_proxy/server.rs: the checks of the handshake, by the outcome of each.
use gsc_fq.Common.{
  ℕ, ◌≡◌, ◌≢◌, ◌↔◌, inl, inr, refl, Bool, true, false, Option, none, some, List, [], ◌∷◌, Bytes,
  bytes_eq, bytes_eq_iff, Bool-cases, Option-cases, ◌==◌, ==_iff, arith,
}
use gsc_fq.ReverseProxy.Protocol.{protocol_version, ReverseProxyConfig, ClientHello, ServerHello}
use gsc_fq.ReverseProxy.Handshake.{
  Env, Server, Verdict, welcomed, negotiate, check_configs, check_totp, token_valid, totp_valid,
  welcome, totp_of, from_base32,
}
use gsc_fq.Utils.Totp

pub totp_of-fields :
    (env : Env) (secret : Bytes)
    → ((totp_of env secret).digits ≡ 6) × ((totp_of env secret).step_secs ≡ 30)
unfolding totp_of from_base32 Totp.new
totp_of-fields env secret = ground arith

module _ (env : Env) where
  -- The outcomes of the checks that let a client in.
  pub record Passes (s : Server) (now : ℕ) (hello : ClientHello) : Type 0 where
    pub version : hello.version ≡ protocol_version
    pub token : token_valid s hello.token ≡ true
    pub totp : totp_valid env s hello.totp_code now ≡ some true
    pub hash : env.digest hello.proxies ≡ some hello.config_hash
    pub proxies : hello.proxies ≢ []

  check_entitled :
      (session hash : Bytes) (configs : List ReverseProxyConfig)
      → env.digest configs ≡ some hash
      → configs ≢ []
      → check_configs env session configs hash ≡ welcomed (welcome env session configs) configs
  unfolding check_configs
  check_entitled session hash [] d h = absurd (h refl)
  check_entitled session hash (c ∷ cs) d h =
      rw (d, check_configs) (rw ((bytes_eq_iff hash hash).1 refl))

  abbrev Served : Bytes → Bytes → List ReverseProxyConfig → Verdict → Type 0
  Served session hash configs v =
      (answer : ServerHello) (served : List ReverseProxyConfig)
      → v ≡ welcomed answer served
      → (env.digest configs ≡ some hash)
        × (configs ≢ [])
        × (answer ≡ welcome env session configs)
        × (served ≡ configs)

  check_configs-Served :
      (session hash : Bytes) (configs : List ReverseProxyConfig)
      → Served session hash configs (check_configs env session configs hash)
  unfolding check_configs
  check_configs-Served session hash configs answer served e =
      elim (Option-cases (env.digest configs)) [
        | inl d ↦ absurd (cc (rw (d, check_configs) at e))
        | inr (expected, d) ↦ elim (Bool-cases (bytes_eq expected hash)) [
          | inl same ↦
              let eq : expected ≡ hash = (bytes_eq_iff expected hash).0 same in
              nonempty configs d eq same e
          | inr other ↦ absurd (cc (rw (other) at (rw (d, check_configs) at e)))
        ]
      ]
    where
      nonempty :
          (cs : List ReverseProxyConfig) {expected : Bytes}
          → env.digest cs ≡ some expected
          → expected ≡ hash
          → bytes_eq expected hash ≡ true
          → check_configs env session cs hash ≡ welcomed answer served
          → (env.digest cs ≡ some hash)
            × (cs ≢ [])
            × (answer ≡ welcome env session cs)
            × (served ≡ cs)
      nonempty [] d eq same e = absurd (cc (rw same at (rw (d, check_configs) at e)))
      nonempty (c ∷ cs) d eq same e =
          let e' = rw same at (rw (d, check_configs) at e) in (cc, cc, cc, cc)

  check_totp_welcomed :
      (o : Option Bool) (next : Verdict) {answer : ServerHello} {served : List ReverseProxyConfig}
      → check_totp env o next ≡ welcomed answer served
      → (o ≡ some true) × (next ≡ welcomed answer served)
  unfolding check_totp
  check_totp_welcomed none next e = absurd (cc)
  check_totp_welcomed (some false) next e = absurd (cc)
  check_totp_welcomed (some true) next e = (refl, e)

  negotiate_welcomed :
      (s : Server) (now : ℕ) (session : Bytes) (hello : ClientHello) (answer : ServerHello)
      (served : List ReverseProxyConfig)
      → negotiate env s now session hello ≡ welcomed answer served
      → Passes s now hello × (answer ≡ welcome env session hello.proxies) × (served ≡ hello.proxies)
  unfolding negotiate
  negotiate_welcomed s now session hello answer served e =
      elim (Bool-cases (hello.version == protocol_version)) [
        | inr old ↦ absurd (cc (rw old at e))
        | inl current ↦ elim (Bool-cases (token_valid s hello.token)) [
          | inr bad ↦ absurd (cc (rw (current, bad) at e))
          | inl good ↦
              let (second, checked) = check_totp_welcomed _ _ (rw (current, good) at e) in
              let (hash, some_proxies, answered, all) =
                check_configs-Served session hello.config_hash hello.proxies answer served
                  checked in
              (
                record {
                  version = (==_iff hello.version protocol_version).0 current;
                  token = good;
                  totp = second;
                  hash = hash;
                  proxies = some_proxies;
                },
                answered,
                all,
              )
        ]
      ]

  negotiate-Passes :
      (s : Server) (now : ℕ) (session : Bytes) (hello : ClientHello)
      → Passes s now hello
      → negotiate env s now session hello
        ≡ welcomed (welcome env session hello.proxies) hello.proxies
  unfolding negotiate check_totp
  negotiate-Passes s now session hello v =
      rw ((==_iff hello.version protocol_version).1 v.version, v.token, v.totp)
        (check_entitled session hello.config_hash hello.proxies v.hash v.proxies)

  -- A client is welcomed exactly when it passes all checks.
  pub negotiate_checks :
      (s : Server) (now : ℕ) (session : Bytes) (hello : ClientHello) (answer : ServerHello)
      (served : List ReverseProxyConfig)
      → (negotiate env s now session hello ≡ welcomed answer served) ↔ (
          Passes s now hello
          × (answer ≡ welcome env session hello.proxies)
          × (served ≡ hello.proxies))
  negotiate_checks s now session hello answer served = (
    negotiate_welcomed s now session hello answer served,
    λ (v, a, p). rw (a, p) (negotiate-Passes s now session hello v),
  )
