-- ===== src/ReverseProxy/Handshake/Decision.antt =====
-- src/reverse_proxy/server.rs: whom the handshake lets in.
use gsc_fq.Common.{
  ℕ, zero, suc, ◌+◌, ◌≤◌, ◌≡◌, ◌≢◌, ◌↔◌, ◌⊎◌, inl, inr, refl, true, Option, none, some, List, [],
  ◌∷◌, ◌++◌, arith, map, Bytes, codes, length, bytes_eq, bytes_eq_iff, bytes_key, contains,
  get_elem?, Bool-cases, Option-cases,
}
use gsc_fq.Utils.Totp
use gsc_fq.Utils.Totp.{max_u64}
use gsc_fq.Utils.Totp.Codes.{IsHmac, verify_sound, verify_accepts_drift}
use gsc_fq.ReverseProxy.Protocol.{
  protocol_version, ReverseProxyConfig, ClientHello, ServerHello, accepted,
}
use gsc_fq.ReverseProxy.Handshake.{
  Env, Server, welcomed, negotiate, token_valid, totp_valid, totp_of, welcome,
}
use gsc_fq.ReverseProxy.Handshake.Checks.{totp_of-fields, negotiate_checks}

-- The server asks for no token, or this is the server's own or one of those that it allows.
abbrev pub HasToken : Server → Bytes → Type 0
HasToken s token =
    (s.auth_token ≡ none)
    ⊎ ((own : Bytes) × (s.auth_token ≡ some own)
        × ((token ≡ own) ⊎ ((k : ℕ) × (get_elem? s.allowed_tokens k ≡ some token))))

-- The server has no secret, or this is the password of its secret at some time at most 30 seconds
-- before or after its clock.
abbrev pub HasCode : Env → Server → ℕ → Option ℕ → Type 0
HasCode env s now given =
    (s.totp_secret ≡ none)
    ⊎ ((secret : Bytes) × (code : ℕ) × (at : ℕ) × (s.totp_secret ≡ some secret)
        × (given ≡ some code)
        × (now ≤ at + 30)
        × (at ≤ now + 30)
        × (Totp.generate env.hmac (totp_of env secret) at ≡ some code))

-- What a client must show.
pub record Entitled (env : Env) (s : Server) (now : ℕ) (hello : ClientHello) : Type 0 where
  pub version : hello.version ≡ protocol_version
  pub token : HasToken s hello.token
  pub code : HasCode env s now hello.totp_code
  pub hash : env.digest hello.proxies ≡ some hello.config_hash
  pub proxies : hello.proxies ≢ []

contains-elem :
    (xs : List Bytes) (x : Bytes) → contains xs x ≡ true → (k : ℕ) × (get_elem? xs k ≡ some x)
unfolding contains
contains-elem [] x e = absurd (cc)
contains-elem (y ∷ xs) x e = elim (Bool-cases (bytes_eq y x)) [
  | inl same ↦ let own : y ≡ x = (bytes_eq_iff y x).0 same in (0, rw own refl)
  | inr other ↦ let (k, found) = contains-elem xs x (rw other at e) in (suc k, found)
]

elem-contains :
    (xs : List Bytes) (x : Bytes) (k : ℕ) → get_elem? xs k ≡ some x → contains xs x ≡ true
unfolding contains
elem-contains [] x k e = absurd (cc)
elem-contains (y ∷ xs) x zero e = let own : y ≡ x = cc in ground (arith, (bytes_eq_iff y x).1 own)
elem-contains (y ∷ xs) x (suc k) e = ground (arith, elem-contains xs x k e)

token_valid-HasToken : (s : Server) (token : Bytes) → token_valid s token ≡ true → HasToken s token
unfolding token_valid
token_valid-HasToken s token e = elim (Option-cases s.auth_token) [
  | inl absent ↦ inl absent
  | inr (own, present) ↦ elim (Bool-cases (bytes_eq token own)) [
    | inl same ↦ inr (own, present, inl ((bytes_eq_iff token own).0 same))
    | inr other ↦
        let listed : contains s.allowed_tokens token ≡ true = ground arith in
        inr (own, present, inr (contains-elem s.allowed_tokens token listed))
  ]
]

HasToken-token_valid : (s : Server) (token : Bytes) → HasToken s token → token_valid s token ≡ true
unfolding token_valid
HasToken-token_valid s token (inl absent) = ground arith
HasToken-token_valid s token (inr (own, present, inl same)) =
    ground (arith, (bytes_eq_iff token own).1 same)
HasToken-token_valid s token (inr (own, present, inr (k, found))) =
    ground (arith, elem-contains s.allowed_tokens token k found)

module _ (env : Env) (tags : IsHmac env.hmac) where
  totp_valid-HasCode :
      (s : Server) (code : Option ℕ) (now : ℕ)
      → now + 30 ≤ max_u64
      → totp_valid env s code now ≡ some true
      → HasCode env s now code
  unfolding totp_valid
  totp_valid-HasCode s code now fits e = elim (Option-cases s.totp_secret) [
    | inl absent ↦ inl absent
    | inr (secret, present) ↦ elim (Option-cases code) [
      | inl missing ↦ absurd (ground arith)
      | inr (c, given) ↦
          let (digits, step) = totp_of-fields env secret in
          let t = totp_of env secret in
          let holds : Totp.verify env.hmac t now c ≡ some true = ground arith in
          elim (verify_sound env.hmac t now c tags (omega arith) (omega arith)) [
            | inl refused ↦ absurd (cc)
            | inr (_, at, late, early, made) ↦
                inr (secret, c, at, present, given, omega arith, omega arith, made)
          ]
    ]
  ]

  HasCode-totp_valid :
      (s : Server) (code : Option ℕ) (now : ℕ)
      → now + 30 ≤ max_u64
      → HasCode env s now code
      → totp_valid env s code now ≡ some true
  unfolding totp_valid
  HasCode-totp_valid s code now fits (inl absent) = ground arith
  HasCode-totp_valid s code now fits (inr (secret, c, at, present, given, late, early, made)) =
      let (digits, step) = totp_of-fields env secret in
      let holds : Totp.verify env.hmac (totp_of env secret) now c ≡ some true =
        verify_accepts_drift env.hmac (totp_of env secret) now at c tags (omega arith) step early
          late fits made in
      ground arith

  -- A client is welcomed exactly when it speaks this version, shows a token that the server takes
  -- and, if the server has a secret, a password of it that is at most 30 seconds off, and sends at
  -- least one proxy with the right hash; and then the answer lists the ports of its proxies in order,
  -- and these proxies are those that the server goes on to bind. Tags are 20 bytes, and the clock
  -- does not overflow with a step.
  pub negotiate_iff :
      (s : Server) (now : ℕ) (session : Bytes) (hello : ClientHello) (answer : ServerHello)
      (served : List ReverseProxyConfig)
      → now + 30 ≤ max_u64
      → (negotiate env s now session hello ≡ welcomed answer served) ↔ (
          Entitled env s now hello
          × (answer ≡ record {
            version = protocol_version;
            status = accepted;
            message =
                codes "Connected, "
                ++ env.display (length hello.proxies)
                ++ codes " ports allocated";
            allowed_ports = map (λ (c : ReverseProxyConfig). c.server_port) hello.proxies;
            session_id = some session;
          })
          × (served ≡ hello.proxies))
  unfolding welcome
  negotiate_iff s now session hello answer served fits =
      let (sound, complete) = negotiate_checks env s now session hello answer served in
      (
        λ e.
            let (v, answered, all) = sound e in
            (
              record {
                version = v.version;
                token = token_valid-HasToken s hello.token v.token;
                code = totp_valid-HasCode s hello.totp_code now fits v.totp;
                hash = v.hash;
                proxies = v.proxies;
              },
              answered,
              all,
            ),
        λ (v, answered, all). complete (
          record {
            version = v.version;
            token = HasToken-token_valid s hello.token v.token;
            totp = HasCode-totp_valid s hello.totp_code now fits v.code;
            hash = v.hash;
            proxies = v.proxies;
          },
          answered,
          all,
        ),
      )
