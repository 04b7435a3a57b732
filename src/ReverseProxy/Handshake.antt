-- ===== src/ReverseProxy/Handshake.antt =====
-- src/reverse_proxy: the handshake, as client.rs starts it (`do_handshake`) and server.rs decides it
-- (`handle_client`, up to the response). Parameters: BASE32 of `data_encoding`, HMAC-SHA1 of `ring`,
-- and `digest`, the SHA-256 in hex of the JSON of the proxies (`serde_json`, `sha2`; `none` where
-- the JSON fails). `display` is the standard library's print of a number. Times are in seconds.
pub mod Checks
pub mod Decision
pub mod Agreement
pub mod Exposure
pub mod Enrolment
mod Tests
use gsc_fq.Common.{
  ℕ, zero, suc, ◌+◌, ◌%◌, ◌≡◌, Bool, true, false, ◌||◌, Option, none, some, List, [], ◌∷◌, ◌++◌,
  map, if◌then◌else◌, ◌==◌, Bytes, length, keep, bytes_eq, bytes_key, contains, not, codes,
}
use gsc_fq.Common.Results.{Result, ok, err}
use gsc_fq.Utils.Totp
use gsc_fq.Utils.Totp.{Totp}
use gsc_fq.ReverseProxy.Protocol.{
  protocol_version, ReverseProxyConfig, HandshakeStatus, accepted, version_mismatch, config_error,
  invalid_token, invalid_config_hash, ClientHello, ServerHello, ControlMessage, client_hello,
  server_hello, ping, pong,
}

pub record Env : Type 0 where
  pub base32_decode : Bytes → Option Bytes
  pub to_uppercase : Bytes → Bytes
  pub hmac : Bytes → Bytes → Bytes
  pub digest : List ReverseProxyConfig → Option Bytes
  pub display : ℕ → Bytes

-- `while clean_secret.len() % 8 != 0 { push('=') }`: at most seven rounds.
pub pad_base32 : ℕ → Bytes → Bytes
pad_base32 zero s = s
pad_base32 (suc fuel) s =
    let padded = pad_base32 fuel (s ++ b'=' ∷ []) in if length s % 8 == 0 then s else padded

module _ (env : Env) where
  open env use {base32_decode, to_uppercase, hmac, digest, display}

  -- `Totp::from_base32`.
  pub from_base32 : Bytes → Option Totp
  unfolding pad_base32
  from_base32 secret =
      let clean = to_uppercase (keep (λ c. not (c == b' ')) secret) in
      elim (base32_decode (pad_base32 8 clean)) [ none ↦ none | some key ↦ some (Totp.new key) ]

  -- `from_base32(secret).unwrap_or_else(|_| Totp::new(secret.as_bytes().to_vec()))`.
  pub totp_of : Bytes → Totp
  totp_of secret = elim (from_base32 secret) [ none ↦ Totp.new secret | some t ↦ t ]

pub record Server : Type 0 where
  pub auth_token : Option Bytes
  pub allowed_tokens : List Bytes
  pub totp_secret : Option Bytes

pub data HandshakeError : Type 0 where
  expected_client_hello token_failed totp_failed integrity_failed no_proxies : HandshakeError
  unsupported_version : ℕ → HandshakeError
  serialization_failed totp_panicked : HandshakeError

-- What the server does: answers and closes, closes without an answer, or answers and goes on.
pub data Verdict : Type 0 where
  rejected : ServerHello → HandshakeError → Verdict
  dropped : HandshakeError → Verdict
  welcomed : ServerHello → List ReverseProxyConfig → Verdict

abbrev pub refusal : HandshakeStatus → Bytes → ServerHello
refusal status message = record {
  version = protocol_version;
  status = status;
  message = message;
  allowed_ports = [];
  session_id = none;
}

-- `None => true`: a server with no token of its own takes any.
pub token_valid : Server → Bytes → Bool
token_valid s token = elim s.auth_token [
  | none ↦ true
  | some server_token ↦ bytes_eq token server_token || contains s.allowed_tokens token
]

module _ (env : Env) where
  open env use {hmac, digest, display}

  -- Whether the second factor holds; `none` is a panic.
  pub totp_valid : Server → Option ℕ → ℕ → Option Bool
  totp_valid s code now = elim s.totp_secret [
    | none ↦ some true
    | some secret ↦ elim code [
      | none ↦ some false
      | some c ↦ Totp.verify hmac (totp_of env secret) now c
    ]
  ]

  abbrev pub ports_of : List ReverseProxyConfig → List ℕ
  ports_of = map λ c. c.server_port

  unfoldable pub welcome : Bytes → List ReverseProxyConfig → ServerHello
  welcome session configs = record {
    version = protocol_version;
    status = accepted;
    message = codes "Connected, " ++ display (length configs) ++ codes " ports allocated";
    allowed_ports = ports_of configs;
    session_id = some session;
  }

  -- The checks behind authentication: the hash, and that there is a proxy.
  pub check_configs : Bytes → List ReverseProxyConfig → Bytes → Verdict
  unfolding welcome
  check_configs session configs hash = elim (digest configs) [
    | none ↦ dropped serialization_failed
    | some expected ↦
        if bytes_eq expected hash
        then elim configs [
          | [] ↦
              rejected (refusal config_error (codes "No proxy configurations provided")) no_proxies
          | c ∷ cs ↦ welcomed (welcome session (c ∷ cs)) (c ∷ cs)
        ]
        else rejected (refusal invalid_config_hash (codes "Configuration hash mismatch"))
            integrity_failed
  ]

  check_totp : Option Bool → Verdict → Verdict
  check_totp none next = dropped totp_panicked
  check_totp (some false) next =
      rejected (refusal invalid_token (codes "Invalid or missing TOTP code")) totp_failed
  check_totp (some true) next = next

  pub negotiate : Server → ℕ → Bytes → ClientHello → Verdict
  unfolding check_totp
  negotiate s now session hello =
      if hello.version == protocol_version
      then if token_valid s hello.token
        then check_totp (totp_valid s hello.totp_code now)
            (check_configs session hello.proxies hello.config_hash)
        else rejected (refusal invalid_token (codes "Invalid or missing authentication token"))
            token_failed
      else rejected
          (refusal version_mismatch (codes "Unsupported version: " ++ display hello.version))
          (unsupported_version hello.version)

  unfoldable pub handle_client : Server → ℕ → Bytes → ControlMessage → Verdict
  handle_client s now session (client_hello hello) = negotiate s now session hello
  handle_client s now session (server_hello _) = dropped expected_client_hello
  handle_client s now session ping = dropped expected_client_hello
  handle_client s now session pong = dropped expected_client_hello

pub record Client : Type 0 where
  pub auth_token : Option Bytes
  pub totp_secret : Option Bytes

abbrev pub or_empty : Option Bytes → Bytes
or_empty none = []
or_empty (some t) = t

module _ (env : Env) where
  open env use {hmac, digest}

  -- The client's password for this time, if it has a secret.
  pub client_code : Client → ℕ → Result (Option ℕ) HandshakeError
  client_code c now = elim c.totp_secret [
    | none ↦ ok none
    | some secret ↦ elim (Totp.generate hmac (totp_of env secret) now) [
      | none ↦ err totp_panicked
      | some code ↦ ok (some code)
    ]
  ]

  -- The ClientHello that `do_handshake` sends.
  unfoldable pub make_hello :
      Client → List ReverseProxyConfig → ℕ → Result ClientHello HandshakeError
  unfolding client_code
  make_hello c configs now = elim (digest configs) [
    | none ↦ err serialization_failed
    | some hash ↦ elim (client_code c now) [
      | err e ↦ err e
      | ok code ↦ ok (record {
        version = protocol_version;
        token = or_empty c.auth_token;
        totp_code = code;
        proxies = configs;
        config_hash = hash;
      })
    ]
  ]

pub data ClientError : Type 0 where
  handshake_failed : Bytes → ClientError

abbrev judge_status : HandshakeStatus → Bytes → Result (Unit {0}) ClientError
judge_status accepted message = ok tt
judge_status _ message = err (handshake_failed message)

-- The client's reading of the answer.
pub judge : ControlMessage → Result (Unit {0}) ClientError
judge (server_hello h) = judge_status h.status h.message
judge _ = err (handshake_failed (codes "Invalid server response"))

-- `[reverse_proxy_server]` of the configuration file.
pub record ServerSection : Type 0 where
  pub port : ℕ
  pub allowed_tokens : List Bytes
  pub totp_secret : Option Bytes

-- The server that `RuntimeManager::run` starts: `ReverseProxyServer::new(bind_ip, port)`, whose token
-- is that of the environment variable REVERSE_PROXY_TOKEN.
pub run_server : Option Bytes → ServerSection → Server
run_server env_token section = record {
  auth_token = env_token;
  allowed_tokens = [];
  totp_secret = none;
}
