-- ===== src/ReverseProxy/Handshake/Agreement.antt =====
-- src/reverse_proxy: a client with the right secrets is let in.
use gsc_fq.Common.{
  ℕ, ◌+◌, ◌≤◌, ◌≡◌, ◌≢◌, ◌⊎◌, inl, inr, refl, true, Option, none, some, List, [], arith, Bytes,
  bytes_eq_iff, Option-cases,
}
use gsc_fq.Common.Results.{ok}
use gsc_fq.Utils.Totp
use gsc_fq.Utils.Totp.{Totp, max_u64}
use gsc_fq.Utils.Totp.Codes.{IsHmac, generate_in_range, verify_accepts_drift}
use gsc_fq.ReverseProxy.Protocol.{protocol_version, ReverseProxyConfig, ClientHello, server_hello}
use gsc_fq.ReverseProxy.Handshake.{
  Env, Server, Client, welcomed, negotiate, welcome, token_valid, totp_valid, totp_of, make_hello,
  client_code, or_empty, judge,
}
use gsc_fq.ReverseProxy.Handshake.Checks.{totp_of-fields, negotiate_checks}

-- The client knows what the server asks for.
pub record Knows (c : Client) (s : Server) : Type 0 where
  pub token : (s.auth_token ≡ none) ⊎ (s.auth_token ≡ c.auth_token)
  pub secret : (s.totp_secret ≡ none) ⊎ (s.totp_secret ≡ c.totp_secret)

token_known : (c : Client) (s : Server) → Knows c s → token_valid s (or_empty c.auth_token) ≡ true
unfolding token_valid
token_known c s k = elim (Option-cases c.auth_token) [
  | inl absent ↦ ground (arith, k.token)
  | inr (t, present) ↦ ground (arith, k.token, (bytes_eq_iff t t).1 refl)
]

module _ (env : Env) (tags : IsHmac env.hmac) where
  -- The client's code is made, and holds at the server.
  code_known :
      (c : Client) (s : Server) (sent now : ℕ)
      → Knows c s
      → sent ≤ now + 30
      → now ≤ sent + 30
      → now + 30 ≤ max_u64
      → (code : Option ℕ) × (client_code env c sent ≡ ok code)
        × (totp_valid env s code now ≡ some true)
  unfolding client_code totp_valid
  code_known c s sent now k early late fits = elim (Option-cases c.totp_secret) [
    | inl absent ↦ (none, ground arith, ground (arith, k.secret))
    | inr (secret, present) ↦
        let (digits, step) = totp_of-fields env secret in
        let (code, made, _) =
          generate_in_range env.hmac (totp_of env secret) sent (tags _ _) (omega arith) in
        let holds : Totp.verify env.hmac (totp_of env secret) now code ≡ some true =
          verify_accepts_drift env.hmac (totp_of env secret) now sent code tags (omega arith) step
            early late fits made in
        (some code, ground arith, ground (arith, k.secret, holds))
  ]

  make_hello_lem :
      (c : Client) (configs : List ReverseProxyConfig) (sent : ℕ) (hash : Bytes) (code : Option ℕ)
      → env.digest configs ≡ some hash
      → client_code env c sent ≡ ok code
      → make_hello env c configs sent
        ≡ ok (record {
          version = protocol_version;
          token = or_empty c.auth_token;
          totp_code = code;
          proxies = configs;
          config_hash = hash;
        })
  unfolding make_hello
  make_hello_lem c configs sent hash code d e = rw (d, make_hello) (rw e)

  -- A client that knows the server's token and secret, has a proxy and keeps its clock within 30
  -- seconds of the server's, is welcomed with its ports, and takes the answer for a success, if its
  -- proxies have a hash, tags are 20 bytes and the clock does not overflow with a step.
  pub client_welcomed :
      (c : Client) (s : Server) (configs : List ReverseProxyConfig) (sent now : ℕ)
      (session hash : Bytes)
      → Knows c s
      → env.digest configs ≡ some hash
      → configs ≢ []
      → sent ≤ now + 30
      → now ≤ sent + 30
      → now + 30 ≤ max_u64
      → (hello : ClientHello) × (make_hello env c configs sent ≡ ok hello)
        × (negotiate env s now session hello ≡ welcomed (welcome env session configs) configs)
        × (judge (server_hello (welcome env session configs)) ≡ ok tt)
  unfolding welcome judge
  client_welcomed c s configs sent now session hash k d some_configs early late fits =
      let (code, made, holds) = code_known c s sent now k early late fits in
      let hello : ClientHello = record {
        version = protocol_version;
        token = or_empty c.auth_token;
        totp_code = code;
        proxies = configs;
        config_hash = hash;
      } in
      (
        hello,
        make_hello_lem c configs sent hash code d made,
        (negotiate_checks env s now session hello _ _).1 (
          record {
            version = refl;
            token = token_known c s k;
            totp = holds;
            hash = d;
            proxies = some_configs;
          },
          refl,
          refl,
        ),
        refl,
      )
