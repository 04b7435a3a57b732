-- ===== src/ReverseProxy/Session/Example.antt =====
-- src/reverse_proxy: a client and a server for the tests of a session, and a codec of their messages.
use gsc_fq.Common.{
  ◌≡◌, refl, Bool, true, false, ◌&&◌, Option, none, some, List, [], ◌∷◌, if◌then◌else◌, Bool-cases,
  inl, inr, ◌==◌, ==_iff, Bytes, bytes_eq, bytes_eq_iff, codes,
}
use gsc_fq.Common.Results.{Result, ok, err}
use gsc_fq.ReverseProxy.Protocol.{
  ReverseProxyConfig, HandshakeStatus, accepted, version_mismatch, config_error,
  port_allocation_failed, invalid_token, token_expired, access_denied, invalid_config_hash,
  ClientHello, ServerHello, ControlMessage, client_hello, server_hello, ping, pong, Codec,
}
use gsc_fq.ReverseProxy.Protocol.Frames.{IsCodec}
use gsc_fq.ReverseProxy.Handshake.{Env}

abbrev pub env : Env
env = record {
  base32_decode = λ s. none;
  to_uppercase = λ s. s;
  hmac = λ key msg.
      0 ∷ 1 ∷ 2 ∷ 3 ∷ 4 ∷ 5 ∷ 6 ∷ 7 ∷ 8 ∷ 9 ∷ 10 ∷ 11 ∷ 12 ∷ 13 ∷ 14 ∷ 15 ∷ 16 ∷ 17 ∷ 18 ∷ 19 ∷ [];
  digest = λ configs. some (b'h' ∷ []);
  display = λ n. [];
}

abbrev pub ssh : ReverseProxyConfig
ssh = record {
  server_port = 7000;
  server_host = none;
  local_host = codes "127.0.0.1";
  local_port = 22;
}

abbrev pub hello : ClientHello
hello = record {
  version = 1;
  token = b't' ∷ [];
  totp_code = none;
  proxies = ssh ∷ [];
  config_hash = b'h' ∷ [];
}

abbrev pub answer : ServerHello
answer = record {
  version = 1;
  status = accepted;
  message = codes "Connected,  ports allocated";
  allowed_ports = 7000 ∷ [];
  session_id = some [];
}

&&-both : (a b : Bool) → (a && b) ≡ true → (a ≡ true) × (b ≡ true)
&&-both true b e = (refl, e)
&&-both false b e = absurd (cc)

abbrev absent {ℓ} : {A : Type ℓ} → Option A → Bool
absent none = true
absent (some a) = false

absent_lem {ℓ} : {A : Type ℓ} → (o : Option A) → absent o ≡ true → o ≡ none
absent_lem none e = refl
absent_lem (some a) e = absurd (cc)

abbrev is_ssh : ReverseProxyConfig → Bool
is_ssh c =
    c.server_port == 7000
    && (absent c.server_host && (bytes_eq c.local_host (codes "127.0.0.1") && c.local_port == 22))

is_ssh_lem : (c : ReverseProxyConfig) → is_ssh c ≡ true → c ≡ ssh
is_ssh_lem c e =
    let (server_port, more0) =
      &&-both (c.server_port == 7000)
        (absent c.server_host
          && (bytes_eq c.local_host (codes "127.0.0.1") && (c.local_port == 22)))
        e in
    let (server_host, more1) =
      &&-both (absent c.server_host)
        (bytes_eq c.local_host (codes "127.0.0.1") && (c.local_port == 22)) more0 in
    let (local_host, local_port) =
      &&-both (bytes_eq c.local_host (codes "127.0.0.1")) (c.local_port == 22) more1 in
    λ i. record {
      server_port = (==_iff c.server_port 7000).0 server_port i;
      server_host = absent_lem c.server_host server_host i;
      local_host = (bytes_eq_iff c.local_host (codes "127.0.0.1")).0 local_host i;
      local_port = (==_iff c.local_port 22).0 local_port i;
    }

abbrev only_ssh : List ReverseProxyConfig → Bool
only_ssh [] = false
only_ssh (c ∷ []) = is_ssh c
only_ssh (c ∷ d ∷ cs) = false

only_ssh_lem : (cs : List ReverseProxyConfig) → only_ssh cs ≡ true → cs ≡ ssh ∷ []
only_ssh_lem [] e = absurd (cc)
only_ssh_lem (c ∷ []) e = λ i. is_ssh_lem c e i ∷ []
only_ssh_lem (c ∷ d ∷ cs) e = absurd (cc)

abbrev is_hello : ClientHello → Bool
is_hello h =
    h.version == 1
    && (bytes_eq h.token (b't' ∷ [])
        && (absent h.totp_code && (only_ssh h.proxies && bytes_eq h.config_hash (b'h' ∷ []))))

is_hello_lem : (h : ClientHello) → is_hello h ≡ true → h ≡ hello
is_hello_lem h e =
    let (version, more0) =
      &&-both (h.version == 1)
        (bytes_eq h.token (b't' ∷ [])
          && (absent h.totp_code && (only_ssh h.proxies && (bytes_eq h.config_hash (b'h' ∷ [])))))
        e in
    let (token, more1) =
      &&-both (bytes_eq h.token (b't' ∷ []))
        (absent h.totp_code && (only_ssh h.proxies && (bytes_eq h.config_hash (b'h' ∷ []))))
        more0 in
    let (totp_code, more2) =
      &&-both (absent h.totp_code) (only_ssh h.proxies && (bytes_eq h.config_hash (b'h' ∷ [])))
        more1 in
    let (proxies, config_hash) =
      &&-both (only_ssh h.proxies) (bytes_eq h.config_hash (b'h' ∷ [])) more2 in
    λ i. record {
      version = (==_iff h.version 1).0 version i;
      token = (bytes_eq_iff h.token (b't' ∷ [])).0 token i;
      totp_code = absent_lem h.totp_code totp_code i;
      proxies = only_ssh_lem h.proxies proxies i;
      config_hash = (bytes_eq_iff h.config_hash (b'h' ∷ [])).0 config_hash i;
    }

abbrev is_accepted : HandshakeStatus → Bool
is_accepted accepted = true
is_accepted version_mismatch = false
is_accepted config_error = false
is_accepted port_allocation_failed = false
is_accepted invalid_token = false
is_accepted token_expired = false
is_accepted access_denied = false
is_accepted invalid_config_hash = false

is_accepted_lem : (s : HandshakeStatus) → is_accepted s ≡ true → s ≡ accepted
is_accepted_lem accepted e = refl
is_accepted_lem version_mismatch e = absurd (cc)
is_accepted_lem config_error e = absurd (cc)
is_accepted_lem port_allocation_failed e = absurd (cc)
is_accepted_lem invalid_token e = absurd (cc)
is_accepted_lem token_expired e = absurd (cc)
is_accepted_lem access_denied e = absurd (cc)
is_accepted_lem invalid_config_hash e = absurd (cc)

abbrev is_empty_text : Option Bytes → Bool
is_empty_text none = false
is_empty_text (some t) = bytes_eq t []

is_empty_text_lem : (o : Option Bytes) → is_empty_text o ≡ true → o ≡ some []
is_empty_text_lem none e = absurd (cc)
is_empty_text_lem (some t) e = λ i. some ((bytes_eq_iff t []).0 e i)

abbrev is_answer : ServerHello → Bool
is_answer h =
    h.version == 1
    && (is_accepted h.status
        && (bytes_eq h.message answer.message
            && (bytes_eq h.allowed_ports (7000 ∷ []) && is_empty_text h.session_id)))

is_answer_lem : (h : ServerHello) → is_answer h ≡ true → h ≡ answer
is_answer_lem h e =
    let (version, more0) =
      &&-both (h.version == 1)
        (is_accepted h.status
          && (bytes_eq h.message answer.message
              && (bytes_eq h.allowed_ports (7000 ∷ []) && (is_empty_text h.session_id))))
        e in
    let (status, more1) =
      &&-both (is_accepted h.status)
        (bytes_eq h.message answer.message
          && (bytes_eq h.allowed_ports (7000 ∷ []) && (is_empty_text h.session_id)))
        more0 in
    let (message, more2) =
      &&-both (bytes_eq h.message answer.message)
        (bytes_eq h.allowed_ports (7000 ∷ []) && (is_empty_text h.session_id)) more1 in
    let (allowed_ports, session_id) =
      &&-both (bytes_eq h.allowed_ports (7000 ∷ [])) (is_empty_text h.session_id) more2 in
    λ i. record {
      version = (==_iff h.version 1).0 version i;
      status = is_accepted_lem h.status status i;
      message = (bytes_eq_iff h.message answer.message).0 message i;
      allowed_ports = (bytes_eq_iff h.allowed_ports (7000 ∷ [])).0 allowed_ports i;
      session_id = is_empty_text_lem h.session_id session_id i;
    }

-- It encodes this hello and this answer, and refuses other messages.
abbrev encode : ControlMessage → Result Bytes Bytes
encode (client_hello h) = if is_hello h then ok (0 ∷ []) else err []
encode (server_hello h) = if is_answer h then ok (1 ∷ []) else err []
encode ping = err []
encode pong = err []

abbrev decode : Bytes → Result ControlMessage Bytes
decode [] = err []
decode (b ∷ bs) = if b == 0 then ok (client_hello hello) else ok (server_hello answer)

abbrev pub greetings : Codec
greetings = record { serialize = encode; deserialize = decode }

pub greetings-IsCodec : IsCodec greetings
greetings-IsCodec (client_hello h) payload e = elim (Bool-cases (is_hello h)) [
  | inr other ↦ absurd (cc (rw other at e))
  | inl same ↦
      let shape : payload ≡ 0 ∷ [] = cc (rw same at e) in rw (shape, is_hello_lem h same) refl
]
greetings-IsCodec (server_hello h) payload e = elim (Bool-cases (is_answer h)) [
  | inr other ↦ absurd (cc (rw other at e))
  | inl same ↦
      let shape : payload ≡ 1 ∷ [] = cc (rw same at e) in rw (shape, is_answer_lem h same) refl
]
greetings-IsCodec ping payload e = absurd (cc)
greetings-IsCodec pong payload e = absurd (cc)
